-- ===== src/Ecs/Schedule/Build/Result.antt =====
-- Schedule.cpp, `Build`: what it leaves when it succeeds, on a cycle and on a conflict.
use oyi_engine.Prelude.{
  ◌⊎◌, ℕ, ◌≤◌, ◌<◌, ◌≡◌, inl, inr, refl, sym, ap, subst, ◌∙◌, Bool, true, false, List, [], Option,
  some, some-injective, if◌then◌else◌, length, get_elem?, get_elem?-lt, count, arith, Bool-cases,
  Option-cases, replicate, Expected, ok, fail, invalid_state,
}
use oyi_engine.Ecs.ComponentMask.{Mask}
use oyi_engine.Ecs.Schedule.{
  SystemDesc, conflicts_automatically, System, Schedule, Reach, included, predecessors, in_phase,
  conflicts, phase_count,
}
use oyi_engine.Ecs.Schedule.Sort.{Sorted, sort, takes_part}
use oyi_engine.Ecs.Schedule.Sort.Kahn.{count-get, get-count}
use oyi_engine.Ecs.Schedule.Sort.Before.{Before, Sound, link, chain}
use oyi_engine.Ecs.Schedule.Sort.Result.{
  AllClosed, IsWired, IsRanked, IsOrder, Sorts, AllOrders, success, cycle, sort_lem,
}
use oyi_engine.Ecs.Schedule.Build.{
  Linking, on_descs, unordered, find_conflict, finish, with_sorted, link_schedule, resort, build,
}
use oyi_engine.Ecs.Schedule.Build.Pairs.{IsFree, find_conflict-none, find_conflict-some}
use oyi_engine.Ecs.Schedule.Build.Edges.{IsExtended, link_orders-IsExtended, link_orders-unchanged}
use oyi_engine.Ecs.Schedule.Build.Rank.{IsPhased, rank, rank-IsRanked, orders-increase}

no_both : (b : Bool) → b ≡ false → b ≡ true → ⊥
no_both b h k = cc

if-not_built : {A : Type 0} {b : Bool} (x : A) {y : A} → b ≡ false → (if b then x else y) ≡ y
if-not_built x e = rw e refl

module _ (kind : ℕ) where
  module _ (systems : List System) (wired : IsWired systems) (phase : ℕ) (order : List ℕ)
      (o : IsOrder kind systems phase order) where
    in_order : (s i : ℕ) → get_elem? order i ≡ some s → takes_part kind systems phase s ≡ true
    in_order s i e = ground (arith, count-get order i s e, o.complete s)

    Before-included : {a b : ℕ} → Before kind systems a b → included kind systems b ≡ true
    Before-included (link a_in b_in e) = b_in
    Before-included (chain before b_in e) = b_in

    -- A chain of edges leads from an earlier to a later position.
    Before-lt :
        (a b : ℕ)
        → Before kind systems a b
        → (i j : ℕ) → get_elem? order i ≡ some a
        → get_elem? order j ≡ some b
        → i < j
    unfolding takes_part
    Before-lt a b (link a_in b_in e) i j h k = o.ordered i j a b h k e
    Before-lt a b (chain {b = m} before b_in e) i j h k =
        let (at, found) = get-count order m (
          ground
            (arith, wired phase m b e, in_order b j k, Before-included before, o.complete m)) in
        omega (arith, Before-lt a m before i at h found, o.ordered at j m b found k e)

    -- Systems in conflict that the table orders are joined by a chain of edges, the earlier first.
    free-Before :
        (reach : Reach)
        → Sound kind systems reach
        → IsFree systems reach order
        → (i j a b : ℕ) → i < j
        → get_elem? order i ≡ some a
        → get_elem? order j ≡ some b
        → on_descs systems conflicts a b ≡ true
        → Before kind systems a b
    unfolding unordered
    free-Before reach sound free i j a b less h k e = elim (Bool-cases (reach a b)) [
      | inl forward ↦ sound a b forward
      | inr not_forward ↦
          let back : reach b a ≡ true = ground (arith, free i j a b less h k) in
          absurd (omega (arith, Before-lt b a (sound b a back) j i k h))
    ]

  -- An order of a phase in which systems in conflict are joined by a chain of edges.
  pub record IsSafeOrder (systems : List System) (phase : ℕ) (order : List ℕ) : Type 0 where
    pub is_order : IsOrder kind systems phase order
    pub safe :
        (i j a b : ℕ)
        → i < j
        → get_elem? order i ≡ some a
        → get_elem? order j ≡ some b
        → on_descs systems conflicts a b ≡ true
        → Before kind systems a b

  -- The table of what precedes what holds every chain of edges.
  abbrev pub Complete : List System → Reach → Type 0
  Complete systems reach = (a b : ℕ) → Before kind systems a b → reach a b ≡ true

  part_of :
      (systems : List System) (s : ℕ)
      → included kind systems s ≡ true
      → (phase : ℕ) × (in_phase systems phase s ≡ true) × (takes_part kind systems phase s ≡ true)
  unfolding included in_phase takes_part
  part_of systems s h = elim (Option-cases (get_elem? systems s)) [
    | inl f ↦ absurd (ground (arith, h, f))
    | inr (r, f) ↦ (r.desc.phase, ground (arith, f), ground (arith, f, h))
  ]

  end-included :
      (systems : List System) (a b : ℕ) → Before kind systems a b → included kind systems b ≡ true
  end-included systems a b (link a_in b_in e) = b_in
  end-included systems a b (chain before b_in e) = b_in

  closed-Complete :
      (systems : List System) (reach : Reach)
      → IsPhased systems
      → AllClosed kind systems phase_count reach
      → Complete systems reach
  closed-Complete systems reach phased closed a b (link a_in b_in e) =
      let (phase, inside, part) = part_of systems b b_in in
      (closed phase a b (phased phase b inside) part a_in e).0
  closed-Complete systems reach phased closed a b (chain {b = m} before b_in e) =
      let (phase, inside, part) = part_of systems b b_in in
      let m_in = end-included systems a m before in
      (closed phase m b (phased phase b inside) part m_in e).1 a
        (closed-Complete systems reach phased closed a m before)

  -- Systems that the table does not order are joined by no chain of edges.
  unordered-apart :
      (systems : List System) (reach : Reach) (a b : ℕ)
      → Complete systems reach
      → unordered reach a b ≡ true
      → (¬ Before kind systems a b) × (¬ Before kind systems b a)
  unfolding unordered
  unordered-apart systems reach a b complete h = (
    λ before. no_both (reach a b) (ground (arith, h)) (complete a b before),
    λ before. no_both (reach b a) (ground (arith, h)) (complete b a before),
  )

  -- The systems of `u` are those of `s` with more edges at most, each between systems of which one
  -- writes a resource that is ordered automatically and the other touches it; their descriptions are
  -- the same.
  pub record IsGrown (automatic : Mask) (s u : List System) : Type 0 where
    pub kept : (a b : ℕ) → count a (predecessors s b) ≤ count a (predecessors u b)
    pub same_phase : (phase a : ℕ) → in_phase u phase a ≡ in_phase s phase a
    pub same_kind : (a : ℕ) → included kind u a ≡ included kind s a
    pub same_descs :
        (test : SystemDesc → SystemDesc → Bool) (a b : ℕ)
        → on_descs u test a b ≡ on_descs s test a b
    pub only :
        (a b : ℕ)
        → 0 < count a (predecessors u b)
        → (0 < count a (predecessors s b))
          ⊎ (on_descs s (λ x y. conflicts_automatically x y automatic) a b ≡ true)

  pub data Builds (automatic : Mask) (s u : Schedule) : Expected (Unit {0}) → Type 0 where
    ordered :
        u.built ≡ true
        → IsGrown automatic s.systems u.systems
        → ((phase : ℕ)
            → phase < phase_count
            → (order : List ℕ) × (get_elem? u.order phase ≡ some order)
              × IsSafeOrder u.systems phase order)
        → Builds automatic s u (ok tt)
    cyclic :
        u.built ≡ false
        → u.systems ≡ s.systems
        → u.order ≡ replicate phase_count []
        → ((rank : ℕ → ℕ) → ¬ IsRanked kind s.systems rank)
        → Builds automatic s u (fail invalid_state)
    in_conflict_with :
        (phase a b : ℕ)
        → u.built ≡ false
        → IsGrown automatic s.systems u.systems
        → u.order ≡ replicate phase_count []
        → u.last_conflict ≡ (a, b)
        → takes_part kind u.systems phase a ≡ true
        → takes_part kind u.systems phase b ≡ true
        → on_descs u.systems conflicts a b ≡ true
        → ¬ Before kind u.systems a b
        → ¬ Before kind u.systems b a
        → Builds automatic s u (fail invalid_state)

  module _ (automatic : Mask) (s : Schedule) (t : Schedule) (wired : IsWired t.systems)
      (open_yet : t.built ≡ false) (grown : IsGrown automatic s.systems t.systems)
      (sized : length t.order ≡ phase_count) (sorted : AllOrders kind t.systems t.order)
      (sound : Sound kind t.systems t.reach) (complete : Complete t.systems t.reach) where
    finish-Builds :
        (r : Expected (Unit {0})) × (u : Schedule) × (finish t ≡ (r, u)) × Builds automatic s u r
    unfolding finish
    finish-Builds = elim (Option-cases (find_conflict t.systems t.reach t.order)) [
      | inl free ↦ (
        ok tt,
        record t { built = true },
        rw (free, finish) refl,
        ordered refl grown λ phase small.
            let (order, found, o) = sorted phase small in
            (
              order,
              found,
              record {
                is_order = o;
                safe =
                    free-Before t.systems wired phase order o t.reach sound
                      (find_conflict-none t.systems t.reach t.order phase order free found);
              },
            ),
      )
      | inr ((a, b), e) ↦
          let (phase, order, found, a_in, b_in, bad) =
            find_conflict-some t.systems t.reach t.order a b e in
          let (order', found', o) =
            sorted phase (omega (arith, sized, get_elem?-lt t.order phase found)) in
          let same : order' ≡ order = some-injective _ _ (sym found' ∙ found) in
          let v : IsOrder kind t.systems phase order =
            subst (IsOrder kind t.systems phase) same o in
          (
            fail invalid_state,
            record t { last_conflict = (a, b); order = replicate phase_count [] },
            rw (e, finish) refl,
            let (apart, apart_back) =
                  unordered-apart t.systems t.reach a b complete (ground (arith, bad)) in
                in_conflict_with phase a b open_yet grown refl refl (ground (arith, v.complete a))
                  (ground (arith, v.complete b)) (ground arith) apart apart_back,
          )
    ]

  module _ (automatic : Mask) (s : Schedule) (open_yet : s.built ≡ false)
      (wired : IsWired s.systems) (phased : IsPhased s.systems)
      (sized : length s.order ≡ phase_count) where
    abbrev Outcome : Option (Expected (Unit {0}) × Schedule) → Type 0
    Outcome o =
        (r : Expected (Unit {0})) × (u : Schedule) × (o ≡ some (r, u)) × Builds automatic s u r

    resort-plain :
        (l : Linking) (t : Schedule)
        → l.added ≡ false
        → resort kind l t ≡ some (finish (record t { systems = l.systems; reach = l.reach }))
    unfolding resort
    resort-plain l t e = rw (e, resort) refl

    resort-sorted :
        (l : Linking) (t : Schedule) (u : Sorted)
        → l.added ≡ true
        → sort kind l.systems t.order t.order_index ≡ some (ok tt, u)
        → resort kind l t ≡ some (finish (with_sorted (record t { systems = l.systems }) u))
    unfolding resort
    resort-sorted l t u e run = rw (e, resort) (rw (run) refl)

    build-sorted :
        (t : Sorted)
        → sort kind s.systems s.order s.order_index ≡ some (ok tt, t)
        → build kind automatic s ≡ resort kind (link_schedule automatic s t) (with_sorted s t)
    unfolding build
    build-sorted t run = if-not_built _ open_yet ∙ rw run refl

    build-cycle :
        (t : Sorted)
        → sort kind s.systems s.order s.order_index ≡ some (fail invalid_state, t)
        → build kind automatic s ≡ some (fail invalid_state, with_sorted s t)
    unfolding build
    build-cycle t run = if-not_built _ open_yet ∙ rw run refl

    IsGrown-refl : IsGrown automatic s.systems s.systems
    IsGrown-refl = record {
      kept = λ a b. omega arith;
      same_phase = λ phase a. refl;
      same_kind = λ a. refl;
      same_descs = λ f a b. refl;
      only = λ a b e. inl e;
    }

    module _ (t : Sorted) (t_sized : length t.orders ≡ phase_count)
        (orders : AllOrders kind s.systems t.orders) (sound : Sound kind s.systems t.reach)
        (closed : AllClosed kind s.systems phase_count t.reach) where
      abbrev rank_of : ℕ → ℕ
      rank_of = rank kind s.systems t.orders wired phased t_sized orders

      abbrev linked : Linking
      linked = link_schedule automatic s t

      linked-IsExtended : IsExtended kind s.systems rank_of automatic linked.systems
      unfolding link_schedule
      linked-IsExtended =
          link_orders-IsExtended kind s.systems rank_of automatic t.orders
            (record { systems = s.systems; reach = t.reach; added = false })
            (orders-increase kind s.systems t.orders wired phased t_sized orders)
            (record {
              wired = wired;
              ranked = rank-IsRanked kind s.systems t.orders wired phased t_sized orders;
              same_phase = λ phase a. refl;
              same_kind = λ a. refl;
              kept = λ a b. omega arith;
              same_descs = λ f a b. refl;
              only = λ a b e. inl e;
            })

      resort-unchanged : linked.added ≡ false → Outcome (resort kind linked (with_sorted s t))
      unfolding link_schedule with_sorted
      resort-unchanged e =
          let first : Linking = record { systems = s.systems; reach = t.reach; added = false } in
          let same = link_orders-unchanged automatic t.orders first e in
          let (r, u, run, b) =
            finish-Builds automatic s (with_sorted s t) wired open_yet IsGrown-refl t_sized orders
              sound (closed-Complete s.systems t.reach phased closed) in
          (
            r,
            u,
            resort-plain linked (with_sorted s t) e
                ∙ ap
                    (λ m.
                      some (
                        finish (record (with_sorted s t) { systems = m.systems; reach = m.reach })))
                    same
                ∙ ap some run,
            b,
          )

      resort-Sorts :
          (r : Expected (Unit {0})) (u : Sorted)
          → Sorts kind linked.systems u r
          → sort kind linked.systems t.orders t.order_index ≡ some (r, u)
          → Sound kind linked.systems u.reach
          → linked.added ≡ true
          → Outcome (resort kind linked (with_sorted s t))
      unfolding with_sorted
      resort-Sorts r u (cycle empty no_rank) run again_sound e =
          absurd (no_rank rank_of linked-IsExtended.ranked)
      resort-Sorts r u (success u_sized u_orders u_closed) run again_sound e =
          let ext = linked-IsExtended in
          let linked_phased : IsPhased linked.systems =
            λ phase x h. phased phase x (sym (ext.same_phase phase x) ∙ h) in
          let grown : IsGrown automatic s.systems linked.systems = record {
            kept = ext.kept;
            only = ext.only;
            same_phase = ext.same_phase;
            same_kind = ext.same_kind;
            same_descs = ext.same_descs;
          } in
          let (r1, u1, run1, b) =
            finish-Builds automatic s
              (with_sorted (record (with_sorted s t) { systems = linked.systems }) u) ext.wired
              open_yet grown u_sized u_orders again_sound
              (closed-Complete linked.systems u.reach linked_phased u_closed) in
          (r1, u1, resort-sorted linked (with_sorted s t) u e run ∙ ap some run1, b)

      -- The edges that are added form no cycle, so an order is derived again.
      resort-Builds : Outcome (resort kind linked (with_sorted s t))
      resort-Builds = elim (Bool-cases linked.added) [
        | inl e ↦
            let ext = linked-IsExtended in
            let (r, u, run, sorts, again_sound) =
              sort_lem kind linked.systems ext.wired t.orders t.order_index t_sized in
            resort-Sorts r u sorts run again_sound e
        | inr e ↦ resort-unchanged e
      ]

    build-Sorts :
        (r : Expected (Unit {0})) (t : Sorted)
        → Sorts kind s.systems t r
        → sort kind s.systems s.order s.order_index ≡ some (r, t)
        → Sound kind s.systems t.reach
        → Outcome (build kind automatic s)
    unfolding with_sorted
    build-Sorts r t (cycle empty no_rank) run sound =
        (fail invalid_state, with_sorted s t, build-cycle t run, cyclic open_yet refl empty no_rank)
    build-Sorts r t (success t_sized orders closed) run sound =
        let (r1, u1, run1, b) = resort-Builds t t_sized orders sound closed in
        (r1, u1, build-sorted t run ∙ run1, b)

    -- `Build` ends, and leaves the schedule as `Builds` says.
    pub build_refines : Outcome (build kind automatic s)
    build_refines =
        let (r, t, run, sorts, sound) = sort_lem kind s.systems wired s.order s.order_index sized in
        build-Sorts r t sorts run sound
