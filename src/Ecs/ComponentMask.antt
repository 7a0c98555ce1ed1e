-- ===== src/Ecs/ComponentMask.antt =====
-- engine/oyi_ecs/include/oyi_ecs/ComponentMask.h: `TypeMask`, a set of up to 256 dense type indices
-- in four 64-bit words. An index past the last word is undefined in the source; here it reads as
-- absent and a write to it changes nothing.
use Prim.Native.Nat.{bit_and, bit_or}
use oyi_engine.Prelude.{
  ℕ, zero, suc, ◌+◌, ◌-◌, ◌*◌, ◌/◌, ◌%◌, ◌^◌, Bool, true, false, not, ◌&&◌, ◌||◌, List, [], ◌∷◌,
  ◌++◌, ◌==◌, if◌then◌else◌, get_or, set,
}

-- `mWords`
abbrev pub Mask : Type 0
Mask = List ℕ

-- `TypeMask{}`
abbrev pub empty : Mask
empty = 0 ∷ 0 ∷ 0 ∷ 0 ∷ []

-- `WordOf` and `BitOf`
abbrev pub word_of : ℕ → ℕ
word_of type = type / 64

abbrev pub bit_of : ℕ → ℕ
bit_of type = 2 ^ (type % 64)

-- `Set`
unfoldable pub insert : Mask → ℕ → Mask
insert m type = set m (word_of type) (bit_or (get_or m (word_of type) 0) (bit_of type))

-- `Clear`; `~bit` is the complement in 64 bits.
unfoldable pub erase : Mask → ℕ → Mask
erase m type = set m (word_of type) (bit_and (get_or m (word_of type) 0) (2 ^ 64 - 1 - bit_of type))

-- `Test`
unfoldable pub test : Mask → ℕ → Bool
test m type = not (bit_and (get_or m (word_of type) 0) (bit_of type) == 0)

-- `operator==`
unfoldable pub equal : Mask → Mask → Bool
equal [] [] = true
equal (a ∷ xs) [] = false
equal [] (b ∷ ys) = false
equal (a ∷ xs) (b ∷ ys) = a == b && equal xs ys

-- `Contains` and `Intersects`
unfoldable pub contains : Mask → Mask → Bool
contains (a ∷ xs) (b ∷ ys) = bit_and a b == b && contains xs ys
contains _ _ = true

unfoldable pub intersects : Mask → Mask → Bool
intersects (a ∷ xs) (b ∷ ys) = not (bit_and a b == 0) || intersects xs ys
intersects _ _ = false

-- `And`
unfoldable pub both : Mask → Mask → Mask
both (a ∷ xs) (b ∷ ys) = bit_and a b ∷ both xs ys
both _ _ = []

-- The bits of one word from bit `b` on that `ForEach` visits, in ascending order: `word &= word - 1`
-- drops the lowest bit, which `countr_zero` has just named.
bits_from : ℕ → ℕ → ℕ → List ℕ
bits_from zero b word = []
bits_from (suc n) b word =
    let rest = bits_from n (b + 1) (word / 2) in if word % 2 == 1 then b ∷ rest else rest

-- The indices that `ForEach` visits.
types_from : ℕ → Mask → List ℕ
unfolding bits_from
types_from i [] = []
types_from i (w ∷ ws) = bits_from 64 (i * 64) w ++ types_from (i + 1) ws

unfoldable pub types : Mask → List ℕ
unfolding types_from
types m = types_from 0 m
