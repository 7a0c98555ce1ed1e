-- ===== src/Ecs/Schedule/Build/Edges.antt =====
-- Schedule.cpp: what an order edge changes, and that the edges `Build` adds follow the derived order.
use oyi_engine.Prelude.{
  ◌⊎◌, Bool-cases, ℕ, ◌+◌, ◌≤◌, ◌<◌, ◌≡◌, inl, inr, refl, sym, ap, ◌∙◌, Bool, true, false, ◌&&◌,
  List, [], ◌∷◌, ◌++◌, ◌==◌, if◌then◌else◌, length, get_elem?, get_elem?-set, get_elem?-lt,
  get_elem?-total, count, arith, Option-cases, All,
}
use oyi_engine.Ecs.ComponentMask.{Mask}
use oyi_engine.Ecs.Schedule.{
  SystemDesc, conflicts_automatically, System, included, predecessors, in_phase, add_predecessor,
}
use oyi_engine.Ecs.Schedule.Sort.Pick.{count-push}
use oyi_engine.Ecs.Schedule.Sort.Result.{IsWired, IsRanked}
use oyi_engine.Ecs.Schedule.Build.{on_descs, Linking, link_pair, look_back, link_order, link_orders}

module _ (systems : List System) (a b : ℕ) where
  abbrev pub linked : List System
  linked = add_predecessor systems a b

  pub add_predecessor-in_phase : (phase s : ℕ) → in_phase linked phase s ≡ in_phase systems phase s
  unfolding add_predecessor in_phase
  add_predecessor-in_phase phase s = elim (Option-cases (get_elem? systems b)) [
    | inl e ↦ ground arith
    | inr (r, e) ↦ ground (
      arith,
      get_elem?-set systems b s (record r { predecessors = r.predecessors ++ a ∷ [] }),
      get_elem?-lt systems b {x = r},
    )
  ]

  pub on_descs-add_predecessor :
      (test : SystemDesc → SystemDesc → Bool) (x y : ℕ)
      → on_descs linked test x y ≡ on_descs systems test x y
  unfolding add_predecessor on_descs
  on_descs-add_predecessor test x y = elim (Option-cases (get_elem? systems b)) [
    | inl e ↦ ground arith
    | inr (r, e) ↦
        let at = get_elem?-lt systems b e in
        let read = λ (z : ℕ).
          get_elem?-set systems b z (record r { predecessors = r.predecessors ++ a ∷ [] }) at in
        ground (arith, e, read x, read y)
  ]

  pub add_predecessor-included : (kind s : ℕ) → included kind linked s ≡ included kind systems s
  unfolding add_predecessor included
  add_predecessor-included kind s = elim (Option-cases (get_elem? systems b)) [
    | inl e ↦ ground arith
    | inr (r, e) ↦ ground (
      arith,
      get_elem?-set systems b s (record r { predecessors = r.predecessors ++ a ∷ [] }),
      get_elem?-lt systems b {x = r},
    )
  ]

  pub count-add_predecessor :
      (x s : ℕ)
      → b < length systems
      → count x (predecessors linked s)
        ≡ count x (predecessors systems s) + (if b == s && x == a then 1 else 0)
  unfolding add_predecessor predecessors
  count-add_predecessor x s h = elim (Option-cases (get_elem? systems b)) [
    | inl e ↦ let (r, found) = get_elem?-total systems b h in cc
    | inr (r, e) ↦ ground (
      arith,
      get_elem?-set systems b s (record r { predecessors = r.predecessors ++ a ∷ [] }) h,
      count-push x r.predecessors a,
    )
  ]

-- The ranks of the systems in a list grow.
abbrev pub IsIncreasing : (ℕ → ℕ) → List ℕ → Type 0
IsIncreasing rank [] = Unit
IsIncreasing rank (x ∷ xs) = ((y : ℕ) → 0 < count y xs → rank x < rank y) × IsIncreasing rank xs

abbrev pub InPhase : List System → ℕ → List ℕ → Type 0
InPhase systems phase xs = (s : ℕ) → 0 < count s xs → in_phase systems phase s ≡ true

module _ (kind : ℕ) (old : List System) (rank : ℕ → ℕ) (automatic : Mask) where
  -- The test of the source for an edge that it adds by itself.
  abbrev pub ordered_by_itself : SystemDesc → SystemDesc → Bool
  ordered_by_itself x y = conflicts_automatically x y automatic

  -- Edges between systems in an automatic conflict were added, which grow in rank, and nothing else
  -- was changed.
  pub record IsExtended (systems : List System) : Type 0 where
    pub wired : IsWired systems
    pub ranked : IsRanked kind systems rank
    pub same_phase : (phase s : ℕ) → in_phase systems phase s ≡ in_phase old phase s
    pub same_kind : (s : ℕ) → included kind systems s ≡ included kind old s
    pub kept : (a b : ℕ) → count a (predecessors old b) ≤ count a (predecessors systems b)
    pub same_descs :
        (test : SystemDesc → SystemDesc → Bool) (a b : ℕ)
        → on_descs systems test a b ≡ on_descs old test a b
    pub only :
        (a b : ℕ)
        → 0 < count a (predecessors systems b)
        → (0 < count a (predecessors old b)) ⊎ (on_descs old ordered_by_itself a b ≡ true)

  module _ (phase a b : ℕ) (a_in : in_phase old phase a ≡ true) (b_in : in_phase old phase b ≡ true)
      (less : rank a < rank b) (systems : List System) (v : IsExtended systems) where
    in_phase-lt : b < length systems
    unfolding in_phase
    in_phase-lt = elim (Option-cases (get_elem? systems b)) [
      | inl e ↦ ground (arith, v.same_phase phase b)
      | inr (r, e) ↦ get_elem?-lt systems b e
    ]

    in_phase_unique : (i : ℕ) → in_phase systems i b ≡ true → i ≡ phase
    unfolding in_phase
    in_phase_unique i h = elim (Option-cases (get_elem? systems b)) [
      | inl e ↦ ground arith
      | inr (r, e) ↦ ground (arith, v.same_phase phase b)
    ]

    -- The edges of a system after one more edge.
    added-only :
        on_descs systems ordered_by_itself a b ≡ true
        → (x s : ℕ) → 0 < count x (predecessors (add_predecessor systems a b) s)
        → (0 < count x (predecessors old s)) ⊎ (on_descs old ordered_by_itself x s ≡ true)
    added-only test x s e =
        let edges = count-add_predecessor systems a b x s in_phase-lt in
        elim (Bool-cases (b == s && x == a)) [
          | inl new ↦
              let to : b ≡ s = ground (arith, new) in
              let from : a ≡ x = ground (arith, new) in
              inr (
                ap (on_descs old ordered_by_itself x) (sym to)
                ∙ ap (λ z. on_descs old ordered_by_itself z b) (sym from)
                ∙ sym (v.same_descs ordered_by_itself a b)
                ∙ test)
          | inr old_edge ↦ v.only x s (ground (arith, edges, e, old_edge))
        ]

    add_predecessor-IsExtended :
        on_descs systems ordered_by_itself a b ≡ true → IsExtended (add_predecessor systems a b)
    add_predecessor-IsExtended test =
        let edges = λ (x s : ℕ). count-add_predecessor systems a b x s in_phase-lt in
        let phases = add_predecessor-in_phase systems a b in
        let kinds = λ (s : ℕ). add_predecessor-included systems a b kind s in
        record {
          wired = λ i x s e h. ground (
            arith,
            edges x s,
            phases i s,
            phases i x,
            v.wired i x s,
            in_phase_unique i,
            v.same_phase i a,
          );
          ranked = λ x s h k e. ground (arith, edges x s, kinds x, kinds s, v.ranked x s);
          same_phase = λ i s. phases i s ∙ v.same_phase i s;
          same_kind = λ s. kinds s ∙ v.same_kind s;
          kept = λ x s. ground (arith, edges x s, v.kept x s);
          same_descs = λ f x s. on_descs-add_predecessor systems a b f x s ∙ v.same_descs f x s;
          only = added-only test;
        }

  if-IsExtended :
      (test : Bool) (l r : Linking)
      → (test ≡ true → IsExtended l.systems)
      → IsExtended r.systems
      → IsExtended (if test then l else r).systems
  if-IsExtended true l r h k = h refl
  if-IsExtended false l r h k = k

  module _ (phase : ℕ) where
    link_pair-IsExtended :
        (a b : ℕ) (l : Linking)
        → in_phase old phase a ≡ true
        → in_phase old phase b ≡ true
        → rank a < rank b
        → IsExtended l.systems
        → IsExtended (link_pair automatic b a l).systems
    unfolding link_pair
    link_pair-IsExtended a b l a_in b_in less v =
        if-IsExtended _ _ l
          (λ test.
            add_predecessor-IsExtended phase a b a_in b_in less l.systems v (ground (arith, test)))
          v

    look_back-IsExtended :
        (b : ℕ) (seen : List ℕ) (l : Linking)
        → in_phase old phase b ≡ true
        → InPhase old phase seen
        → ((a : ℕ) → 0 < count a seen → rank a < rank b)
        → IsExtended l.systems
        → IsExtended (look_back automatic b seen l).systems
    unfolding look_back
    look_back-IsExtended b [] l b_in h k v = v
    look_back-IsExtended b (a ∷ seen) l b_in h k v =
        look_back-IsExtended b seen (link_pair automatic b a l) b_in (λ s e. h s (omega (arith, e)))
          (λ s e. k s (omega (arith, e)))
          (link_pair-IsExtended a b l (h a (ground arith)) b_in (k a (ground arith)) v)

    link_order-IsExtended :
        (seen rest : List ℕ) (l : Linking)
        → InPhase old phase seen
        → InPhase old phase rest
        → ((a b : ℕ) → 0 < count a seen → 0 < count b rest → rank a < rank b)
        → IsIncreasing rank rest
        → IsExtended l.systems
        → IsExtended (link_order automatic seen rest l).systems
    unfolding link_order
    link_order-IsExtended seen [] l h g k i v = v
    link_order-IsExtended seen (b ∷ rest) l h g k i v =
        link_order-IsExtended (b ∷ seen) rest (look_back automatic b seen l)
          (λ s e. ground (arith, h s, g b)) (λ s e. g s (omega (arith, e)))
          (λ s t e f. ground (arith, k s t, i.0 t)) i.1
          (look_back-IsExtended b seen l (g b (ground arith)) h (λ s e. k s b e (ground arith)) v)

  -- The edges of every phase.
  pub link_orders-IsExtended :
      (orders : List (List ℕ)) (l : Linking)
      → All (λ order. (phase : ℕ) × InPhase old phase order × IsIncreasing rank order) orders
      → IsExtended l.systems
      → IsExtended (link_orders automatic orders l).systems
  unfolding link_orders
  link_orders-IsExtended [] l h v = v
  link_orders-IsExtended (order ∷ orders) l h v =
      let (phase, inside, increasing) = h.0 in
      link_orders-IsExtended orders (link_order automatic [] order l) h.1 (
        link_order-IsExtended phase [] order l (λ s e. absurd (omega (arith, e))) inside
          (λ s t e f. absurd (omega (arith, e))) increasing v)

-- No edge was added: nothing was changed.
module _ (automatic : Mask) where
  link_pair-unchanged :
      (b a : ℕ) (l : Linking)
      → (link_pair automatic b a l).added ≡ false
      → link_pair automatic b a l ≡ l
  unfolding link_pair
  link_pair-unchanged b a l h = ground arith

  look_back-unchanged :
      (b : ℕ) (seen : List ℕ) (l : Linking)
      → (look_back automatic b seen l).added ≡ false
      → look_back automatic b seen l ≡ l
  unfolding look_back
  look_back-unchanged b [] l h = refl
  look_back-unchanged b (a ∷ seen) l h =
      let same = look_back-unchanged b seen (link_pair automatic b a l) h in
      same ∙ link_pair-unchanged b a l (sym (ap (λ m. m.added) same) ∙ h)

  link_order-unchanged :
      (seen rest : List ℕ) (l : Linking)
      → (link_order automatic seen rest l).added ≡ false
      → link_order automatic seen rest l ≡ l
  unfolding link_order
  link_order-unchanged seen [] l h = refl
  link_order-unchanged seen (b ∷ rest) l h =
      let same = link_order-unchanged (b ∷ seen) rest (look_back automatic b seen l) h in
      same ∙ look_back-unchanged b seen l (sym (ap (λ m. m.added) same) ∙ h)

  pub link_orders-unchanged :
      (orders : List (List ℕ)) (l : Linking)
      → (link_orders automatic orders l).added ≡ false
      → link_orders automatic orders l ≡ l
  unfolding link_orders
  link_orders-unchanged [] l h = refl
  link_orders-unchanged (order ∷ orders) l h =
      let same = link_orders-unchanged orders (link_order automatic [] order l) h in
      same ∙ link_order-unchanged [] order l (sym (ap (λ m. m.added) same) ∙ h)
