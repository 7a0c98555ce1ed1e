-- ===== src/Ecs/Schedule/Sort/Result.antt =====
-- Schedule.cpp, `Sort`: when it succeeds, what the orders are then, and what it leaves otherwise.
use oyi_engine.Prelude.{
  ℕ, zero, suc, ◌+◌, ◌≤◌, ◌<◌, ◌≡◌, inl, inr, refl, sym, ap, subst, ◌∙◌, true, false, List, [], ◌∷◌,
  some, ◌==◌, if◌then◌else◌, length, length-set, get_elem?, get_elem?-set, get_or, count, arith,
  Bool-cases, Option-cases, replicate, map, Expected, ok, fail, invalid_state, length-map,
}
use oyi_engine.Ecs.Schedule.{Reach, System, included, predecessors, in_phase, phase_count}
use oyi_engine.Ecs.Schedule.Sort.{
  Progress, Sorted, takes_part, included_edges, sort_phase, start_phase, end_phase, clear_orders,
  sort_phases, sort, indegrees, range_from,
}
use oyi_engine.Ecs.Schedule.Sort.Kahn.{IsKahn, done_edges, takes_part-included, takes_part-lt}
use oyi_engine.Ecs.Schedule.Sort.Counting.{phase_size, order_complete, length_complete}
use oyi_engine.Ecs.Schedule.Sort.Before.{Sound}
use oyi_engine.Ecs.Schedule.Sort.Closed.{Joined}
use oyi_engine.Ecs.Schedule.Sort.Phase.{IsDrained, IsKahn-AtMost, IsFresh, sort_phase_lem}

-- The predecessors of a system are of its phase, as `AddOrder` sees to.
abbrev pub IsWired : List System → Type 0
IsWired systems =
    (phase a b : ℕ)
    → 0 < count a (predecessors systems b)
    → in_phase systems phase b ≡ true
    → in_phase systems phase a ≡ true

module _ (kind : ℕ) (systems : List System) where
  -- A numbering that grows along every order edge: there is no cycle.
  abbrev pub IsRanked : (ℕ → ℕ) → Type 0
  IsRanked rank =
      (a b : ℕ)
      → included kind systems a ≡ true
      → included kind systems b ≡ true
      → 0 < count a (predecessors systems b)
      → rank a < rank b

  -- An order of a phase: each of its systems once, and after its predecessors.
  pub record IsOrder (phase : ℕ) (order : List ℕ) : Type 0 where
    pub complete : (s : ℕ) → count s order ≡ (if takes_part kind systems phase s then 1 else 0)
    pub ordered :
        (i j a b : ℕ)
        → get_elem? order i ≡ some a
        → get_elem? order j ≡ some b
        → 0 < count a (predecessors systems b)
        → i < j

  all_done :
      (order ps : List ℕ)
      → ((a : ℕ) → count a order ≤ (if included kind systems a then 1 else 0))
      → ((a : ℕ) → 0 < count a ps → included kind systems a ≡ true → count a order ≡ 1)
      → done_edges order ps ≡ included_edges kind systems ps
  unfolding included_edges
  all_done order [] h k = refl
  all_done order (p ∷ ps) h k =
      ground (arith, h p, k p, all_done order ps h (λ a e. k a (omega (arith, e))))

  module _ (phase : ℕ) (q : Progress) (v : IsKahn kind systems phase q) where
    order-included : (a : ℕ) → count a q.order ≤ (if included kind systems a then 1 else 0)
    order-included a =
        ground
          (arith, IsKahn-AtMost kind systems phase q v a, takes_part-included kind systems phase a)

    -- Without a cycle, a loop that has nothing left to place has placed every system.
    ranked_placed :
        IsWired systems
        → q.ready ≡ []
        → (rank : ℕ → ℕ) → IsRanked rank
        → (k s : ℕ) → rank s < k
        → takes_part kind systems phase s ≡ true
        → count s q.order ≡ 1
    unfolding takes_part
    ranked_placed wired e rank ranked zero s h t = absurd (omega arith)
    ranked_placed wired e rank ranked (suc k) s h t =
        let earlier : (a : ℕ)
            → 0 < count a (predecessors systems s)
            → included kind systems a ≡ true
            → count a q.order ≡ 1 =
          λ a edge a_in.
            ranked_placed wired e rank ranked k a
              (omega (arith, ranked a s a_in (takes_part-included kind systems phase s t) edge))
              (ground (arith, wired phase a s edge)) in
        let done = all_done q.order (predecessors systems s) order-included earlier in
        ground (arith, v.edges s t, done, v.placed s, ap (count s) e)

    ranked_complete :
        IsWired systems
        → q.ready ≡ []
        → (rank : ℕ → ℕ) → IsRanked rank
        → length q.order ≡ phase_size kind systems phase
    ranked_complete wired e rank ranked = length_complete kind systems phase q.order λ s. ground (
      arith,
      IsKahn-AtMost kind systems phase q v s,
      ranked_placed wired e rank ranked (suc (rank s)) s,
    )

    drained-IsOrder : length q.order ≡ phase_size kind systems phase → IsOrder phase q.order
    drained-IsOrder h = record {
      complete = order_complete kind systems phase q.order (IsKahn-AtMost kind systems phase q v) h;
      ordered = v.ordered;
    }

  abbrev pub AllOrders : List (List ℕ) → Type 0
  AllOrders orders =
      (phase : ℕ)
      → phase < phase_count
      → (order : List ℕ) × (get_elem? orders phase ≡ some order) × IsOrder phase order

  -- The table puts every system before its successors, with all that is before it.
  abbrev pub AllClosed : ℕ → Reach → Type 0
  AllClosed n reach =
      (phase d s : ℕ)
      → phase < n
      → takes_part kind systems phase s ≡ true
      → included kind systems d ≡ true
      → 0 < count d (predecessors systems s)
      → Joined reach reach d s

  -- What `Sort` leaves: an order of every phase, or no order at all.
  pub data Sorts (t : Sorted) : Expected (Unit {0}) → Type 0 where
    success :
        length t.orders ≡ phase_count
        → AllOrders t.orders
        → AllClosed phase_count t.reach
        → Sorts t (ok tt)
    cycle :
        t.orders ≡ replicate phase_count []
        → ((rank : ℕ → ℕ) → ¬ IsRanked rank)
        → Sorts t (fail invalid_state)

  takes_part_unique :
      (i j s : ℕ) → takes_part kind systems i s ≡ true → takes_part kind systems j s ≡ true → i ≡ j
  unfolding takes_part in_phase
  takes_part_unique i j s h k = elim (Option-cases (get_elem? systems s)) [
    | inl e ↦ ground arith
    | inr (r, e) ↦ ground arith
  ]

  -- The state before the phases from `i` on are sorted.
  record IsSortedTo (i : ℕ) (t : Sorted) : Type 0 where
    sized : length t.orders ≡ phase_count
    before :
        (phase : ℕ)
        → phase < i
        → (order : List ℕ) × (get_elem? t.orders phase ≡ some order) × IsOrder phase order
    fresh : (phase : ℕ) → i ≤ phase → IsFresh kind systems phase t
    sound : Sound kind systems t.reach
    closed : AllClosed i t.reach

  module _ (i : ℕ) (t : Sorted) (v : IsSortedTo i t) (q : Progress)
      (drained : IsDrained kind systems i (start_phase kind systems i t) q)
      (full : length q.order ≡ phase_size kind systems i) (small : i < phase_count) where
    end_phase-before :
        (phase : ℕ)
        → phase < suc i
        → (order : List ℕ) × (get_elem? (end_phase i q t).orders phase ≡ some order)
          × IsOrder phase order
    unfolding end_phase
    end_phase-before phase h =
        let read = get_elem?-set t.orders i phase q.order (omega (arith, v.sized, small)) in
        elim (Bool-cases (i == phase)) [
          | inl here ↦
              let e : i ≡ phase = ground arith in
              (
                q.order,
                ground (arith, read),
                subst (λ j. IsOrder j q.order) e (drained-IsOrder i q drained.kahn full),
              )
          | inr there ↦
              let (order, found, o) = v.before phase (ground arith) in
              (order, ground (arith, read), o)
        ]

    end_phase-fresh : (phase : ℕ) → suc i ≤ phase → IsFresh kind systems phase (end_phase i q t)
    unfolding end_phase start_phase
    end_phase-fresh phase h = record {
      sized = drained.kahn.sized;
      edges = λ s part.
          let other : takes_part kind systems i s ≡ false =
            ground (arith, takes_part_unique i phase s) in
          drained.others s other ∙ (v.fresh phase (omega (arith, h))).edges s part;
    }

    same_part :
        (wired : IsWired systems) (phase d s : ℕ)
        → takes_part kind systems phase s ≡ true
        → included kind systems d ≡ true
        → 0 < count d (predecessors systems s)
        → takes_part kind systems phase d ≡ true
    unfolding takes_part
    same_part wired phase d s part d_in edge = ground (arith, part, d_in, wired phase d s edge)

    end_phase-closed : IsWired systems → AllClosed (suc i) q.reach
    unfolding start_phase
    end_phase-closed wired phase d s small part d_in edge =
        let d_part = same_part wired phase d s part d_in edge in
        elim (Bool-cases (phase == i)) [
          | inl here ↦
              let same : phase ≡ i = ground (arith, here) in
              let d_here : takes_part kind systems i d ≡ true =
                ap (λ k. takes_part kind systems k d) (sym same) ∙ d_part in
              let s_here : takes_part kind systems i s ≡ true =
                ap (λ k. takes_part kind systems k s) (sym same) ∙ part in
              let o = drained-IsOrder i q drained.kahn full in
              drained.closed d s (ground (arith, o.complete d, d_here)) s_here edge
          | inr there ↦
              let (one, all) = v.closed phase d s (ground (arith, there, small)) part d_in edge in
              (
                drained.grows d s one,
                λ x e. elim (drained.only x d e) [
                  | inl old ↦ drained.grows x s (all x old)
                  | inr now ↦ absurd (ground (arith, there, takes_part_unique phase i d d_part now))
                ],
              )
        ]

    end_phase-IsSortedTo : IsWired systems → IsSortedTo (suc i) (end_phase i q t)
    unfolding end_phase
    end_phase-IsSortedTo wired = record {
      closed = end_phase-closed wired;
      sized = length-set t.orders i q.order ∙ v.sized;
      before = end_phase-before;
      fresh = end_phase-fresh;
      sound = drained.sound;
    }

  sort_phases-next :
      (i : ℕ) (rest : List ℕ) (t : Sorted) (q : Progress)
      → sort_phase kind systems i t ≡ some q
      → (length q.order == phase_size kind systems i) ≡ true
      → sort_phases kind systems (i ∷ rest) t ≡ sort_phases kind systems rest (end_phase i q t)
  unfolding sort_phases
  sort_phases-next i rest t q run full = rw (run, sort_phases) (rw full refl)

  sort_phases-short :
      (i : ℕ) (rest : List ℕ) (t : Sorted) (q : Progress)
      → sort_phase kind systems i t ≡ some q
      → (length q.order == phase_size kind systems i) ≡ false
      → sort_phases kind systems (i ∷ rest) t
        ≡ some (fail invalid_state, clear_orders (end_phase i q t))
  unfolding sort_phases
  sort_phases-short i rest t q run short = rw (run, sort_phases) (rw short refl)

  module _ (wired : IsWired systems) where
    abbrev Outcome : ℕ → ℕ → Sorted → Type 0
    Outcome i n t =
        (r : Expected (Unit {0})) × (u : Sorted) × (sort_phases kind systems (range_from i n) t
          ≡ some (r, u))
        × Sorts u r
        × Sound kind systems u.reach

    sort_phases_lem : (n i : ℕ) (t : Sorted) → i + n ≡ phase_count → IsSortedTo i t → Outcome i n t
    unfolding sort_phases clear_orders end_phase
    sort_phases_lem zero i t h v = (
      ok tt,
      t,
      refl,
      success v.sized (λ phase k. v.before phase (omega (arith, h, k)))
          (λ phase d s k. v.closed phase d s (omega (arith, h, k))),
      v.sound,
    )
    sort_phases_lem (suc n) i t h v =
        let (q, run, d) = sort_phase_lem kind systems i t (v.fresh i (omega arith)) v.sound in
        elim (Bool-cases (length q.order == phase_size kind systems i)) [
          | inl full ↦
              let (r, u, more, sorts, sound) =
                sort_phases_lem n (suc i) (end_phase i q t) (omega (arith, h))
                  (end_phase-IsSortedTo i t v q d (ground arith) (omega (arith, h)) wired) in
              (r, u, sort_phases-next i (range_from (suc i) n) t q run full ∙ more, sorts, sound)
          | inr short ↦ (
            fail invalid_state,
            clear_orders (end_phase i q t),
            sort_phases-short i (range_from (suc i) n) t q run short,
            cycle refl λ rank ranked.
                ground (arith, ranked_complete i q d.kahn wired d.nothing_ready rank ranked),
            d.sound,
          )
        ]

    get_or-map : (f : ℕ → ℕ) (n i s : ℕ) → s < n → get_or (map f (range_from i n)) s 0 ≡ f (i + s)
    get_or-map f zero i s h = absurd (omega arith)
    get_or-map f (suc n) i zero h = ap f (omega arith)
    get_or-map f (suc n) i (suc s) h = get_or-map f n (suc i) s (omega arith) ∙ ap f (omega arith)

    length-range_from : (i n : ℕ) → length (range_from i n) ≡ n
    length-range_from i zero = refl
    length-range_from i (suc n) = ap suc (length-range_from (suc i) n)

    -- `Sort` ends, and leaves an order of every phase, unless the order edges form a cycle.
    pub sort_lem :
        (orders : List (List ℕ)) (order_index : List ℕ)
        → length orders ≡ phase_count
        → (r : Expected (Unit {0})) × (u : Sorted) × (sort kind systems orders order_index
            ≡ some (r, u))
          × Sorts u r
          × Sound kind systems u.reach
    unfolding sort indegrees
    sort_lem orders order_index h =
        let t : Sorted = record {
          orders = orders;
          indegree = indegrees kind systems;
          order_index = order_index;
          reach = λ a b. false;
        } in
        let v : IsSortedTo 0 t = record {
          sized = h;
          before = λ phase k. absurd (omega (arith, k));
          fresh = λ phase k. record {
            sized =
                length-map (range_from 0 (length systems))
                  (λ s. included_edges kind systems (predecessors systems s))
                ∙ length-range_from 0 (length systems);
            edges = λ s part.
                get_or-map (λ x. included_edges kind systems (predecessors systems x))
                  (length systems) 0 s (takes_part-lt kind systems phase s part)
                ∙ ap (λ x. included_edges kind systems (predecessors systems x)) (omega arith);
          };
          sound = λ a b e. cc;
          closed = λ phase d s k. absurd (omega (arith, k));
        } in
        sort_phases_lem 8 0 t (omega arith) v
