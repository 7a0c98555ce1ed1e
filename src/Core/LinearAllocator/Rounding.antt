-- ===== src/Core/LinearAllocator/Rounding.antt =====
-- Memory.h: the distance to the next aligned address, in words of 64 bits.
use native.Mathlib.Nat.{
  mul_comm, mul-add, div-add-mod, mul-mod_left, mul-le-mul_right, mul-le-mul_left, div-mul-le_self,
  two-pow-succ, lt-div-mul-add, div-eq_of_lt,
}
use oyi_engine.Prelude.{
  ℕ, zero, suc, ◌+◌, ◌-◌, ◌*◌, ◌/◌, ◌%◌, ◌^◌, ◌≤◌, ◌<◌, ◌≡◌, ◌⊎◌, inl, inr, true, ltb, ◌==◌,
  Bool-cases, arith,
}
use oyi_engine.Core.LinearAllocator.{is_power_below, is_valid_alignment, align_address}

-- The powers of two below `2 ^ bits` divide it.
is_power_below-factor :
    (bits n : ℕ) → is_power_below bits n ≡ true → (q : ℕ) × (n * q ≡ 2 ^ bits) × (0 < q)
unfolding is_power_below
is_power_below-factor zero n h = cc
is_power_below-factor (suc bits) n h = elim (Bool-cases (n == 2 ^ bits)) [
  | inl same ↦
      let e : n ≡ 2 ^ bits = ground arith in
      (2, rw (two-pow-succ bits) (omega (arith, e)), omega arith)
  | inr other ↦
      let (q, e, pos) = is_power_below-factor bits n (ground arith) in
      (q + q, rw (mul-add n q q, two-pow-succ bits) (omega (arith, e)), omega arith)
]

-- The bytes between an address and the next aligned one, in words of 64 bits.
abbrev pub gap : ℕ → ℕ → ℕ
gap v a = (align_address v a + 2 ^ 64 - v) % 2 ^ 64

-- A multiple at or above `v` is at or above `v` rounded up.
round_up-least : (v a p : ℕ) → 0 < a → v ≤ p → p % a ≡ 0 → (v + a - 1) / a * a ≤ p
round_up-least v a p pos above multiple =
    let r = (v + a - 1) / a in
    let low : r * a ≤ v + a - 1 = div-mul-le_self (v + a - 1) a in
    let whole : p / a * a ≡ p =
      rw (mul_comm (p / a) a) (omega (arith, div-add-mod p a, multiple)) in
    elim (Bool-cases (ltb (p / a) r)) [
      | inl less ↦
          let step : suc (p / a) * a ≤ r * a = mul-le-mul_right a (ground arith) in
          omega (arith, step, low, whole, above)
      | inr more ↦
          let step : r * a ≤ p / a * a = mul-le-mul_right a (ground arith) in
          omega (arith, step, whole)
    ]

factor-pos : (a q : ℕ) → a * q ≡ 2 ^ 64 → 0 < a
factor-pos zero q h = absurd (omega arith)
factor-pos (suc a) q h = omega arith

factor-le : (a q : ℕ) → a * q ≡ 2 ^ 64 → 0 < q → a ≤ 2 ^ 64
factor-le a q h pos = let step : a * 1 ≤ a * q = mul-le-mul_left a pos in omega (arith, step, h)

-- The quotient is at least the one of a smaller multiple.
factor-below : (a q r : ℕ) → a * q ≡ 2 ^ 64 → 0 < a → 2 ^ 64 < r * a + a → 2 ^ 64 ≤ r * a
factor-below a q r h pos more =
    let whole : q * a ≡ 2 ^ 64 = rw (mul_comm q a) h in
    elim (Bool-cases (ltb r q)) [
      | inl less ↦
          let step : suc r * a ≤ q * a = mul-le-mul_right a (ground arith) in
          absurd (omega (arith, step, whole, more))
      | inr enough ↦
          let step : q * a ≤ r * a = mul-le-mul_right a (ground arith) in omega (arith, step, whole)
    ]

pub gap_lem :
    (v a : ℕ)
    → is_valid_alignment a ≡ true
    → v < 2 ^ 64
    → ((v + gap v a) % a ≡ 0 × ((p : ℕ) → v ≤ p → p % a ≡ 0 → v + gap v a ≤ p))
      ⊎ ((v + gap v a ≡ 2 ^ 64) × ((p : ℕ) → v ≤ p → p % a ≡ 0 → 2 ^ 64 ≤ p))
unfolding is_valid_alignment align_address
gap_lem v a valid small =
    let (q, factor, positive) = is_power_below-factor 64 a valid in
    let pos : 0 < a = factor-pos a q factor in
    let n = v + a - 1 in
    let r = n / a in
    let below : n < r * a + a = lt-div-mul-add pos in
    let low : r * a ≤ n = div-mul-le_self n a in
    elim (Bool-cases (ltb n (2 ^ 64))) [
      | inl fits ↦
          let whole : n % 2 ^ 64 ≡ n = ground arith in
          let up : gap v a ≡ r * a - v = rw whole (ground (arith, below, low, fits)) in
          let reach : v + gap v a ≡ r * a = rw up (omega (arith, below)) in
          inl (
            rw reach (mul-mod_left r a),
            λ p above multiple. rw reach (round_up-least v a p pos above multiple),
          )
      | inr wraps ↦
          let over : 2 ^ 64 ≤ n = ground arith in
          let size : a ≤ 2 ^ 64 = factor-le a q factor positive in
          let wrapped : n % 2 ^ 64 < a = omega (arith, over, small, size) in
          let none_left : n % 2 ^ 64 / a ≡ 0 = div-eq_of_lt wrapped in
          let up : gap v a ≡ (2 ^ 64 - v) % 2 ^ 64 = rw none_left (omega arith) in
          inr (
            rw up (omega (arith, over, small, size)),
            λ p above multiple. omega (
              arith,
              round_up-least v a p pos above multiple,
              factor-below a q r factor pos (omega (arith, over, below)),
            ),
          )
    ]
