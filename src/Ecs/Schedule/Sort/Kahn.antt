-- ===== src/Ecs/Schedule/Sort/Kahn.antt =====
-- Schedule.cpp, `Sort`: the invariant of the `while` loop of one phase.
use oyi_engine.Prelude.{
  ℕ, zero, suc, ◌+◌, ◌-◌, ◌≤◌, ◌<◌, ◌≡◌, ap, subst, ◌∙◌, Bool, true, false, ◌&&◌, List, [], ◌∷◌,
  ◌++◌, ◌==◌, if◌then◌else◌, ltb, length, length-append, get_elem?, get_elem?-push, get_elem?-lt,
  get_or, count, arith, none, some, Option-cases, Bool-cases, inl, inr,
}
use oyi_engine.Ecs.Schedule.{System, included, predecessors, in_phase}
use oyi_engine.Ecs.Schedule.Sort.{
  Progress, takes_part, included_edges, take_next, place, lowest_ready, without_lowest, range_from,
}
use oyi_engine.Ecs.Schedule.Sort.Pick.{count-push, count-without_lowest}
use oyi_engine.Ecs.Schedule.Sort.Release.{
  release-order, release-length, release-indegree, release-ready,
}

-- The edges in `ps` that come from systems in the order.
abbrev pub done_edges : List ℕ → List ℕ → ℕ
done_edges order [] = 0
done_edges order (p ∷ ps) = count p order + done_edges order ps

pub done_edges-push :
    (order ps : List ℕ) (c : ℕ) → done_edges (order ++ c ∷ []) ps ≡ done_edges order ps + count c ps
done_edges-push order [] c = omega arith
done_edges-push order (p ∷ ps) c = ground (arith, done_edges-push order ps c, count-push p order c)

pub count-get : (xs : List ℕ) (i a : ℕ) → get_elem? xs i ≡ some a → 0 < count a xs
count-get [] i a h = cc
count-get (x ∷ xs) zero a h = ground arith
count-get (x ∷ xs) (suc i) a h = omega (arith, count-get xs i a h)

pub get-count : (xs : List ℕ) (a : ℕ) → 0 < count a xs → (i : ℕ) × (get_elem? xs i ≡ some a)
get-count [] a h = absurd (omega arith)
get-count (x ∷ xs) a h = elim (Bool-cases (a == x)) [
  | inl e ↦ (0, ground arith)
  | inr e ↦ let (i, found) = get-count xs a (ground arith) in (suc i, found)
]

module _ (kind : ℕ) (systems : List System) where
  pub takes_part-included :
      (phase s : ℕ) → takes_part kind systems phase s ≡ true → included kind systems s ≡ true
  unfolding takes_part
  takes_part-included phase s h = ground arith

  pub takes_part-lt : (phase s : ℕ) → takes_part kind systems phase s ≡ true → s < length systems
  unfolding takes_part in_phase
  takes_part-lt phase s h = elim (Option-cases (get_elem? systems s)) [
    | inl e ↦ absurd (
        let k : false ≡ true =
          subst
            (λ o.
              (elim o as (λ _. Bool) [ none ↦ false | some r ↦ r.desc.phase == phase ]
                && included kind systems s)
              ≡ true)
            e h in
        cc)
    | inr (r, e) ↦ get_elem?-lt systems s e
  ]

  -- A placed system that is not yet counted leaves room for its edges.
  edges_room :
      (order : List ℕ) (c : ℕ)
      → ((a : ℕ) → count a order ≤ (if included kind systems a then 1 else 0))
      → count c order ≡ 0
      → included kind systems c ≡ true
      → (ps : List ℕ) → done_edges order ps + count c ps ≤ included_edges kind systems ps
  unfolding included_edges
  edges_room order c h z t [] = omega arith
  edges_room order c h z t (q ∷ ps) = ground (arith, h q, edges_room order c h z t ps)

  pub record IsKahn (phase : ℕ) (p : Progress) : Type 0 where
    pub sized : length p.indegree ≡ length systems
    pub placed :
        (s : ℕ)
        → count s p.ready + count s p.order
          ≡ (if takes_part kind systems phase s && get_or p.indegree s 0 == 0 then 1 else 0)
    pub edges :
        (s : ℕ)
        → takes_part kind systems phase s ≡ true
        → get_or p.indegree s 0 + done_edges p.order (predecessors systems s)
          ≡ included_edges kind systems (predecessors systems s)
    pub ordered :
        (i j a b : ℕ)
        → get_elem? p.order i ≡ some a
        → get_elem? p.order j ≡ some b
        → 0 < count a (predecessors systems b)
        → i < j

  module _ (phase : ℕ) (p : Progress) (x : ℕ) (xs : List ℕ) (shown : p.ready ≡ x ∷ xs)
      (v : IsKahn phase p) where
    abbrev part : ℕ → Bool
    part s = takes_part kind systems phase s

    abbrev current : ℕ
    current = lowest_ready p.ready

    abbrev left : ℕ → ℕ
    left s = count s (without_lowest p.ready)

    left_lem : (s : ℕ) → left s + (if s == current then 1 else 0) ≡ count s p.ready
    left_lem s = rw shown (count-without_lowest s x xs)

    pub current_free :
        (count current p.order ≡ 0)
        × (part current ≡ true)
        × (get_or p.indegree current 0 ≡ 0)
        × (count current p.ready ≡ 1)
    current_free = ground (arith, left_lem current, v.placed current)

    order_once : (a : ℕ) → count a p.order ≤ (if included kind systems a then 1 else 0)
    order_once a = ground (arith, v.placed a, takes_part-included phase a)

    room :
        (s : ℕ)
        → done_edges p.order (predecessors systems s) + count current (predecessors systems s)
          ≤ included_edges kind systems (predecessors systems s)
    room s =
        edges_room p.order current order_once current_free.0
          (takes_part-included phase current current_free.1) (predecessors systems s)

    covers :
        (s : ℕ)
        → 0 ≤ s
        → part s ≡ true
        → count current (predecessors systems s) ≤ get_or p.indegree s 0
    covers s le t = omega (arith, room s, v.edges s t)

    -- No edge leads from `current` to a system in the order, nor to itself.
    no_edge_back :
        (s : ℕ)
        → part s ≡ true
        → get_or p.indegree s 0 ≡ 0
        → count current (predecessors systems s) ≡ 0
    no_edge_back s t z = omega (arith, covers s (omega arith) t)

    unfoldable pub after : Progress
    unfolding take_next
    after = take_next kind systems phase p

    in_range : 0 + length systems ≤ length p.indegree
    in_range = omega (arith, v.sized)

    pub after-order : after.order ≡ p.order ++ current ∷ []
    unfolding after take_next place
    after-order =
        release-order kind systems phase current (range_from 0 (length systems)) (place current p)

    pub after-indegree :
        (s : ℕ)
        → get_or after.indegree s 0 ≡ (
            if part s
            then get_or p.indegree s 0 - count current (predecessors systems s)
            else get_or p.indegree s 0)
    unfolding after take_next place
    after-indegree s = ground (
      arith,
      takes_part-lt phase s,
      release-indegree kind systems phase current (length systems) 0 (place current p) s in_range
          covers,
    )

    after-ready :
        (s : ℕ)
        → count s after.ready
          ≡ left s
            + (if part s
                  && ltb 0 (count current (predecessors systems s))
                  && get_or p.indegree s 0 == count current (predecessors systems s)
                then 1
                else 0)
    unfolding after take_next place
    after-ready s = ground (
      arith,
      takes_part-lt phase s,
      release-ready kind systems phase current (length systems) 0 (place current p) s in_range
          covers,
    )

    after-sized : length after.indegree ≡ length systems
    unfolding after take_next place
    after-sized =
        release-length kind systems phase current (range_from 0 (length systems)) (place current p)
        ∙ v.sized

    after-placed :
        (s : ℕ)
        → count s after.ready + count s after.order
          ≡ (if part s && get_or after.indegree s 0 == 0 then 1 else 0)
    after-placed s = ground (
      arith,
      after-ready s,
      after-indegree s,
      ap (count s) after-order,
      count-push s p.order current,
      left_lem s,
      v.placed s,
      covers s,
      current_free,
    )

    after-edges :
        (s : ℕ)
        → part s ≡ true
        → get_or after.indegree s 0 + done_edges after.order (predecessors systems s)
          ≡ included_edges kind systems (predecessors systems s)
    after-edges s t = ground (
      arith,
      after-indegree s,
      v.edges s t,
      covers s,
      ap (λ o. done_edges o (predecessors systems s)) after-order,
      done_edges-push p.order (predecessors systems s) current,
    )

    after-ordered :
        (i j a b : ℕ)
        → get_elem? after.order i ≡ some a
        → get_elem? after.order j ≡ some b
        → 0 < count a (predecessors systems b)
        → i < j
    after-ordered i j a b hi hj e = ground (
      arith,
      ap (λ o. get_elem? o i) after-order,
      ap (λ o. get_elem? o j) after-order,
      get_elem?-push p.order current i,
      get_elem?-push p.order current j,
      v.ordered i j a b,
      get_elem?-lt p.order i {x = a},
      no_edge_back b,
      v.placed b,
      current_free,
      count-get p.order j b,
    )

    pub take_next-IsKahn : IsKahn phase (take_next kind systems phase p)
    unfolding after
    take_next-IsKahn = record {
      sized = after-sized;
      placed = after-placed;
      edges = after-edges;
      ordered = after-ordered;
    }

    pub take_next-order : length (take_next kind systems phase p).order ≡ length p.order + 1
    unfolding after
    take_next-order = ap length after-order ∙ length-append p.order (current ∷ []) ∙ omega arith
