-- ===== src/Ecs/Schedule/Sort/Phase.antt =====
-- Schedule.cpp, `Sort`: the order of one phase.
use oyi_engine.Prelude.{
  ◌⊎◌, ◌++◌, ◌==◌, sym, ap, subst, count, get_elem?, get_elem?-push, get_elem?-lt, length-append,
  Bool-cases, ℕ, zero, suc, ◌+◌, ◌<◌, ◌≡◌, inl, inr, refl, ◌∙◌, Bool, true, false, List, [], ◌∷◌,
  some, length, get_or, arith, List-cases,
}
use oyi_engine.Ecs.Schedule.{System, included, predecessors}
use oyi_engine.Ecs.Schedule.Sort.{
  Progress, Sorted, takes_part, included_edges, take_next, drain, start_phase, sort_phase,
  lowest_ready,
}
use oyi_engine.Ecs.Schedule.Sort.Kahn.{
  IsKahn, done_edges, take_next-IsKahn, take_next-order, current_free, after, after-indegree,
  takes_part-included, takes_part-lt, after-order, get-count,
}
use oyi_engine.Ecs.Schedule.Sort.Counting.{AtMost, order_bound, first_ready_lem}
use oyi_engine.Ecs.Schedule.Sort.Pick.{count-push}
use oyi_engine.Ecs.Schedule.Sort.Closed.{
  Within, Joined, take_next-Within, take_next-only, take_next-Joined,
}
use oyi_engine.Ecs.Schedule.Sort.Before.{Sound, take_next-Sound}

module _ (kind : ℕ) (systems : List System) (phase : ℕ) where
  abbrev part : ℕ → Bool
  part s = takes_part kind systems phase s

  -- Each placed system is before its successors, with all that is before it.
  abbrev pub IsClosed : Progress → Type 0
  IsClosed p =
      (d s : ℕ)
      → 0 < count d p.order
      → part s ≡ true
      → 0 < count d (predecessors systems s)
      → Joined p.reach p.reach d s

  pub record IsDrained (p q : Progress) : Type 0 where
    pub kahn : IsKahn kind systems phase q
    pub nothing_ready : q.ready ≡ []
    pub others : (s : ℕ) → part s ≡ false → get_or q.indegree s 0 ≡ get_or p.indegree s 0
    pub sound : Sound kind systems q.reach
    pub grows : Within p.reach q.reach
    pub only : (x y : ℕ) → q.reach x y ≡ true → (p.reach x y ≡ true) ⊎ (part y ≡ true)
    pub closed : IsClosed q

  pub IsKahn-AtMost :
      (p : Progress) → IsKahn kind systems phase p → AtMost kind systems phase p.order
  IsKahn-AtMost p v s = ground (arith, v.placed s)

  module _ (p : Progress) (x : ℕ) (xs : List ℕ) (shown : p.ready ≡ x ∷ xs)
      (v : IsKahn kind systems phase p) where
    take_next-others :
        (s : ℕ)
        → part s ≡ false
        → get_or (take_next kind systems phase p).indegree s 0 ≡ get_or p.indegree s 0
    unfolding after
    take_next-others s h = ground (arith, after-indegree kind systems phase p x xs shown v s)

    current-included : included kind systems (lowest_ready p.ready) ≡ true
    current-included =
        takes_part-included kind systems phase _ (current_free kind systems phase p x xs shown v).1

    -- A placed system is not a successor of the one that is placed last.
    not_successor :
        (d : ℕ)
        → 0 < count d (p.order ++ lowest_ready p.ready ∷ [])
        → 0 < count (lowest_ready p.ready) (predecessors systems d)
        → ⊥
    unfolding after take_next
    not_successor d inside edge =
        let order = after-order kind systems phase p x xs shown v in
        let now = take_next-IsKahn kind systems phase p x xs shown v in
        let (i, at) = get-count (p.order ++ lowest_ready p.ready ∷ []) d inside in
        let here : get_elem? (p.order ++ lowest_ready p.ready ∷ []) (length p.order)
            ≡ some (lowest_ready p.ready) =
          ground (arith, get_elem?-push p.order (lowest_ready p.ready) (length p.order)) in
        let late : length p.order < i =
          now.ordered (length p.order) i (lowest_ready p.ready) d
            (ap (λ o. get_elem? o (length p.order)) order ∙ here)
            (ap (λ o. get_elem? o i) order ∙ at) edge in
        omega (
          arith,
          late,
          get_elem?-lt (p.order ++ lowest_ready p.ready ∷ []) i at,
          length-append p.order (lowest_ready p.ready ∷ []),
        )

    take_next-IsClosed : IsClosed p → IsClosed (take_next kind systems phase p)
    unfolding after take_next
    take_next-IsClosed closed d s inside part_s edge =
        let c = lowest_ready p.ready in
        let order = after-order kind systems phase p x xs shown v in
        let placed : 0 < count d (p.order ++ c ∷ []) = subst (λ o. 0 < count d o) order inside in
        let old : (y : ℕ) → (take_next kind systems phase p).reach y d ≡ true → p.reach y d ≡ true =
          λ y e. elim (take_next-only kind systems phase p y d e) [
            | inl before ↦ before
            | inr (part_d, new) ↦ absurd (not_successor d placed new)
          ] in
        let grows = take_next-Within kind systems phase p in
        elim (Bool-cases (d == c)) [
          | inl last ↦
              let same : d ≡ c = ground (arith, last) in
              let (one, all) =
                take_next-Joined kind systems phase p s (takes_part-lt kind systems phase s part_s)
                  part_s (subst (λ z. 0 < count z (predecessors systems s)) same edge) in
              (
                ap (λ z. (take_next kind systems phase p).reach z s) same ∙ one,
                λ y e. all y (ap (λ z. p.reach y z) (sym same) ∙ old y e),
              )
          | inr earlier ↦
              let (one, all) =
                closed d s (ground (arith, count-push d p.order c, placed, earlier)) part_s edge in
              (grows d s one, λ y e. grows y s (all y (old y e)))
        ]

  pub drain_lem :
      (fuel : ℕ) (p : Progress)
      → IsKahn kind systems phase p
      → Sound kind systems p.reach
      → IsClosed p
      → length systems < fuel + length p.order
      → (q : Progress) × (drain fuel kind systems phase p ≡ some q) × IsDrained p q
  unfolding drain
  drain_lem zero p v r g h =
      absurd (omega (arith, order_bound kind systems phase p.order (IsKahn-AtMost p v)))
  drain_lem (suc fuel) p v r g h = elim (List-cases p.ready) [
    | inl e ↦
        let d : IsDrained p p = record {
          kahn = v;
          nothing_ready = e;
          others = λ s k. refl;
          sound = r;
          grows = λ y z k. k;
          only = λ y z k. inl k;
          closed = g;
        } in
        (p, ground arith, d)
    | inr (x, xs, e) ↦
        let p1 = take_next kind systems phase p in
        let (q, run, d) =
          drain_lem fuel p1 (take_next-IsKahn kind systems phase p x xs e v)
            (take_next-Sound kind systems phase p (current-included p x xs e v) r)
            (take_next-IsClosed p x xs e v g)
            (omega (arith, take_next-order kind systems phase p x xs e v)) in
        let d1 : IsDrained p q = record {
          kahn = d.kahn;
          nothing_ready = d.nothing_ready;
          others = λ s k. d.others s k ∙ take_next-others p x xs e v s k;
          sound = d.sound;
          grows = λ y z k. d.grows y z (take_next-Within kind systems phase p y z k);
          only = λ y z k. elim (d.only y z k) [
            | inr new ↦ inr new
            | inl old ↦ elim (take_next-only kind systems phase p y z old) [
              | inl before ↦ inl before
              | inr (new, edge) ↦ inr new
            ]
          ];
          closed = d.closed;
        } in
        (q, rw (e, drain) run, d1)
  ]

  -- The indegrees of the phase's systems are those of their edges.
  pub record IsFresh (t : Sorted) : Type 0 where
    pub sized : length t.indegree ≡ length systems
    pub edges :
        (s : ℕ)
        → part s ≡ true
        → get_or t.indegree s 0 ≡ included_edges kind systems (predecessors systems s)

  done_edges-nil : (ps : List ℕ) → done_edges [] ps ≡ 0
  done_edges-nil [] = refl
  done_edges-nil (p ∷ ps) = omega (arith, done_edges-nil ps)

  start_phase-IsKahn :
      (t : Sorted) → IsFresh t → IsKahn kind systems phase (start_phase kind systems phase t)
  unfolding start_phase
  start_phase-IsKahn t f = record {
    sized = f.sized;
    placed = λ s. omega (arith, first_ready_lem kind systems phase t.indegree s);
    edges = λ s e. omega (arith, f.edges s e, done_edges-nil (predecessors systems s));
    ordered = λ i j a b h k e. cc;
  }

  -- The loop of a phase ends within its fuel.
  pub sort_phase_lem :
      (t : Sorted)
      → IsFresh t
      → Sound kind systems t.reach
      → (q : Progress) × (sort_phase kind systems phase t ≡ some q)
        × IsDrained (start_phase kind systems phase t) q
  unfolding sort_phase start_phase
  sort_phase_lem t f r =
      drain_lem (suc (length systems)) (start_phase kind systems phase t) (start_phase-IsKahn t f) r
        (λ d s k. absurd (omega (arith, k))) (omega arith)
