-- ===== src/Ecs/Replay/Order.antt =====
-- World.cpp, `ReplayCommands`: the order in which the commands of all buffers are applied.
use oyi_engine.Prelude.{
  ℕ, zero, suc, ◌+◌, ◌≤◌, ◌<◌, ◌≡◌, inl, inr, refl, ◌∙◌, Bool, true, false, ◌&&◌, ◌||◌, none, some,
  List, [], ◌∷◌, ◌++◌, ltb, leb, ◌==◌, if◌then◌else◌, get_elem?, All, All-append, arith, Bool-cases,
}
use oyi_engine.Ecs.CommandBuffer.{CommandBuffer, Command}
use oyi_engine.Ecs.Replay.{Ref, refs_of, gather, insert_ref, stable_sort, replay_order}

-- By buffer, then by place in the buffer.
abbrev earlier : Ref → Ref → Bool
earlier x y = ltb x.buffer y.buffer || (x.buffer == y.buffer && ltb x.command y.command)

-- By key, then by buffer, then by place in the buffer.
abbrev pub before : Ref → Ref → Bool
before x y = ltb x.sort_key y.sort_key || (x.sort_key == y.sort_key && earlier x y)

-- Every ref is related to all that come after it.
abbrev pub IsOrdered : (Ref → Ref → Bool) → List Ref → Type 0
IsOrdered r [] = Unit
IsOrdered r (x ∷ xs) = All (λ y. r x y ≡ true) xs × IsOrdered r xs

All-map : {P Q : Ref → Type 0} (xs : List Ref) → ((x : Ref) → P x → Q x) → All P xs → All Q xs
All-map [] f h = tt
All-map (x ∷ xs) f h = (f x h.0, All-map xs f h.1)

All-both :
    {P Q S : Ref → Type 0} (xs : List Ref)
    → ((x : Ref) → P x → Q x → S x)
    → All P xs
    → All Q xs
    → All S xs
All-both [] f h k = tt
All-both (x ∷ xs) f h k = (f x h.0 k.0, All-both xs f h.1 k.1)

All-insert_ref :
    (P : Ref → Type 0) (x : Ref) (ys : List Ref) → P x → All P ys → All P (insert_ref x ys)
unfolding insert_ref
All-insert_ref P x [] p h = (p, tt)
All-insert_ref P x (y ∷ ys) p h = elim (Bool-cases (leb x.sort_key y.sort_key)) [
  | inl e ↦ rw (e, insert_ref) (p, h)
  | inr e ↦ rw (e, insert_ref) (h.0, All-insert_ref P x ys p h.1)
]

All-stable_sort : (P : Ref → Type 0) (xs : List Ref) → All P xs → All P (stable_sort xs)
unfolding stable_sort
All-stable_sort P [] h = tt
All-stable_sort P (x ∷ xs) h = All-insert_ref P x (stable_sort xs) h.0 (All-stable_sort P xs h.1)

insert_ref-IsOrdered :
    (x : Ref) (ys : List Ref)
    → All (λ y. earlier x y ≡ true) ys
    → IsOrdered before ys
    → IsOrdered before (insert_ref x ys)
unfolding insert_ref
insert_ref-IsOrdered x [] e h = (tt, tt)
insert_ref-IsOrdered x (y ∷ ys) e h = elim (Bool-cases (leb x.sort_key y.sort_key)) [
  | inl k ↦
      let first : before x y ≡ true = ground (arith, e.0) in
      rw (k, insert_ref) ((first, All-both ys (λ z early later. ground arith) e.1 h.0), h)
  | inr k ↦
      rw (k, insert_ref)
        (
          All-insert_ref (λ z. before y z ≡ true) x ys (ground arith) h.0,
          insert_ref-IsOrdered x ys e.1 h.1,
        )
]

stable_sort-IsOrdered : (xs : List Ref) → IsOrdered earlier xs → IsOrdered before (stable_sort xs)
unfolding stable_sort
stable_sort-IsOrdered [] h = tt
stable_sort-IsOrdered (x ∷ xs) h =
    insert_ref-IsOrdered x (stable_sort xs) (All-stable_sort (λ y. earlier x y ≡ true) xs h.0)
      (stable_sort-IsOrdered xs h.1)

append-IsOrdered :
    (r : Ref → Ref → Bool) (xs ys : List Ref)
    → IsOrdered r xs
    → IsOrdered r ys
    → All (λ x. All (λ y. r x y ≡ true) ys) xs
    → IsOrdered r (xs ++ ys)
append-IsOrdered r [] ys h k a = k
append-IsOrdered r (x ∷ xs) ys h k a =
    (All-append (λ y. r x y ≡ true) xs ys h.0 a.0, append-IsOrdered r xs ys h.1 k a.1)

refs_of-bounds :
    (b c : ℕ) (xs : List Command) → All (λ y. (y.buffer ≡ b) × (c ≤ y.command)) (refs_of b c xs)
unfolding refs_of
refs_of-bounds b c [] = tt
refs_of-bounds b c (x ∷ xs) = (
  (refl, omega arith),
  All-map (refs_of b (suc c) xs) (λ y h. (h.0, omega (arith, h.1))) (refs_of-bounds b (suc c) xs),
)

refs_of-IsOrdered : (b c : ℕ) (xs : List Command) → IsOrdered earlier (refs_of b c xs)
unfolding refs_of
refs_of-IsOrdered b c [] = tt
refs_of-IsOrdered b c (x ∷ xs) = (
  All-map (refs_of b (suc c) xs) (λ y h. ground (arith, h.0, h.1)) (refs_of-bounds b (suc c) xs),
  refs_of-IsOrdered b (suc c) xs,
)

gather-bounds : (b : ℕ) (xs : List CommandBuffer) → All (λ y. b ≤ y.buffer) (gather b xs)
unfolding gather
gather-bounds b [] = tt
gather-bounds b (x ∷ xs) =
    All-append (λ y. b ≤ y.buffer) (refs_of b 0 x.commands) (gather (suc b) xs)
      (All-map (refs_of b 0 x.commands) (λ y h. omega (arith, h.0)) (refs_of-bounds b 0 x.commands))
      (All-map (gather (suc b) xs) (λ y h. omega (arith, h)) (gather-bounds (suc b) xs))

gather-IsOrdered : (b : ℕ) (xs : List CommandBuffer) → IsOrdered earlier (gather b xs)
unfolding gather
gather-IsOrdered b [] = tt
gather-IsOrdered b (x ∷ xs) =
    append-IsOrdered earlier (refs_of b 0 x.commands) (gather (suc b) xs)
      (refs_of-IsOrdered b 0 x.commands) (gather-IsOrdered (suc b) xs)
      (All-map (refs_of b 0 x.commands)
        (λ y h.
          All-map (gather (suc b) xs) (λ z k. ground (arith, h.0, k)) (gather-bounds (suc b) xs))
        (refs_of-bounds b 0 x.commands))

-- How often a command of a buffer is named, with its key.
abbrev pub named : ℕ → ℕ → ℕ → List Ref → ℕ
named b c key [] = 0
named b c key (r ∷ rs) =
    (if r.buffer == b && r.command == c && r.sort_key == key then 1 else 0) + named b c key rs

-- Whether the buffer holds such a command.
abbrev pub holds : List CommandBuffer → ℕ → ℕ → ℕ → Bool
holds buffers b c key = elim (get_elem? buffers b) [
  | none ↦ false
  | some x ↦ elim (get_elem? x.commands c) [ none ↦ false | some y ↦ y.sort_key == key ]
]

module _ (b c key : ℕ) where
  named-append : (xs ys : List Ref) → named b c key (xs ++ ys) ≡ named b c key xs + named b c key ys
  named-append [] ys = omega arith
  named-append (x ∷ xs) ys = omega (arith, named-append xs ys)

  named-insert_ref :
      (x : Ref) (ys : List Ref) → named b c key (insert_ref x ys) ≡ named b c key (x ∷ ys)
  unfolding insert_ref
  named-insert_ref x [] = refl
  named-insert_ref x (y ∷ ys) = ground (arith, named-insert_ref x ys)

  named-stable_sort : (xs : List Ref) → named b c key (stable_sort xs) ≡ named b c key xs
  unfolding stable_sort
  named-stable_sort [] = refl
  named-stable_sort (x ∷ xs) =
      omega (arith, named-insert_ref x (stable_sort xs), named-stable_sort xs)

  named-refs_of_below : (i j : ℕ) (xs : List Command) → c < j → named b c key (refs_of i j xs) ≡ 0
  unfolding refs_of
  named-refs_of_below i j [] h = refl
  named-refs_of_below i j (x ∷ xs) h = ground (arith, named-refs_of_below i (suc j) xs)

  named-refs_of :
      (i j k : ℕ) (xs : List Command)
      → c ≡ j + k
      → named b c key (refs_of i j xs) ≡ (
          if i == b && elim (get_elem? xs k) [ none ↦ false | some y ↦ y.sort_key == key ]
          then 1
          else 0)
  unfolding refs_of
  named-refs_of i j k [] h = ground arith
  named-refs_of i j zero (x ∷ xs) h = ground (arith, named-refs_of_below i (suc j) xs)
  named-refs_of i j (suc k) (x ∷ xs) h = ground (arith, named-refs_of i (suc j) k xs)

  named-gather_below : (i : ℕ) (xs : List CommandBuffer) → b < i → named b c key (gather i xs) ≡ 0
  unfolding gather
  named-gather_below i [] h = refl
  named-gather_below i (x ∷ xs) h = ground (
    arith,
    named-append (refs_of i 0 x.commands) (gather (suc i) xs),
    named-refs_of i 0 c x.commands,
    named-gather_below (suc i) xs,
  )

  named-gather :
      (i k : ℕ) (xs : List CommandBuffer)
      → b ≡ i + k
      → named b c key (gather i xs) ≡ (if holds xs k c key then 1 else 0)
  unfolding gather
  named-gather i k [] h = ground arith
  named-gather i zero (x ∷ xs) h = ground (
    arith,
    named-append (refs_of i 0 x.commands) (gather (suc i) xs),
    named-refs_of i 0 c x.commands,
    named-gather_below (suc i) xs,
  )
  named-gather i (suc k) (x ∷ xs) h = ground (
    arith,
    named-append (refs_of i 0 x.commands) (gather (suc i) xs),
    named-refs_of i 0 c x.commands,
    named-gather (suc i) k xs,
  )

-- The commands are applied in ascending order of their keys, those with one key in the order of their
-- buffers, and those of one buffer in the order of recording. The command at each place of each
-- buffer is named exactly once, with the key that it was recorded with, and nothing else is named.
pub replay_order_sorted :
    (buffers : List CommandBuffer)
    → IsOrdered before (replay_order buffers)
      × ((b c key : ℕ)
          → named b c key (replay_order buffers) ≡ (if holds buffers b c key then 1 else 0))
unfolding replay_order
replay_order_sorted buffers = (
  stable_sort-IsOrdered (gather 0 buffers) (gather-IsOrdered 0 buffers),
  λ b c key.
      named-stable_sort b c key (gather 0 buffers) ∙ named-gather b c key 0 b buffers (omega arith),
)
