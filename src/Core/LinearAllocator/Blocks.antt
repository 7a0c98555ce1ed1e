-- ===== src/Core/LinearAllocator/Blocks.antt =====
-- LinearAllocator.cpp: which block `Allocate` hands out, and that no two blocks overlap.
use oyi_engine.Prelude.{
  ℕ, ◌+◌, ◌-◌, ◌%◌, ◌^◌, ◌≤◌, ◌<◌, ◌≡◌, refl, sym, ap, subst, ◌∙◌, not, inl, inr, true, false, ◌||◌,
  Option, none, some, List, [], ◌∷◌, ltb, ◌==◌, if◌then◌else◌, Bool-cases, arith,
}
use oyi_engine.Core.LinearAllocator.{LinearAllocator, is_valid_alignment, padding_of, allocate}
use oyi_engine.Core.LinearAllocator.Rounding.{gap, gap_lem}

-- The buffer lies below the end of the address space, and the cursor lies in the buffer.
pub record IsPlaced (a : LinearAllocator) : Type 0 where
  pub low : a.offset ≤ a.capacity
  pub high : a.base + a.capacity < 2 ^ 64

-- `size` bytes at `p` are aligned, behind the cursor, and inside the buffer.
abbrev pub IsRoom : LinearAllocator → ℕ → ℕ → ℕ → Type 0
IsRoom a size alignment p =
    (a.base + a.offset ≤ p) × (p % alignment ≡ 0) × (p + size ≤ a.base + a.capacity)

-- What `Allocate` does with a valid request, in terms of the gap.
allocate-eq :
    (a : LinearAllocator) (size alignment : ℕ)
    → 0 < size
    → is_valid_alignment alignment ≡ true
    → let pad = gap (a.base + a.offset) alignment in
      allocate a size alignment ≡ (
        if ltb (a.capacity - a.offset) pad || ltb (a.capacity - a.offset - pad) size
        then (none, a)
        else (some (a.base + (a.offset + pad)), record a { offset = a.offset + pad + size }))
unfolding allocate padding_of
allocate-eq a size alignment pos valid =
    let some_size : (size == 0) ≡ false = ground arith in rw (some_size, valid) refl

allocated-eq :
    (a : LinearAllocator) (start size : ℕ)
    → Path
        (Option ℕ × LinearAllocator)
        (some (a.base + start), record a { offset = start + size })
        (some (a.base + start), record a { offset = a.base + start + size - a.base })
allocated-eq a start size =
    let e : a.base + start + size - a.base ≡ start + size = omega arith in rw e refl

-- If a valid request has room at `q`, `Allocate` hands out a block that has room too, that is,
-- aligned, behind the cursor and inside the buffer, at or below `q`, and moves the cursor behind it.
pub allocate_least :
    (a : LinearAllocator) (size alignment q : ℕ)
    → IsPlaced a
    → 0 < size
    → is_valid_alignment alignment ≡ true
    → IsRoom a size alignment q
    → (p : ℕ) × IsRoom a size alignment p
      × (p ≤ q)
      × (allocate a size alignment ≡ (some p, record a { offset = p + size - a.base }))
allocate_least a size alignment q placed pos valid room =
    let v = a.base + a.offset in
    let pad = gap v alignment in
    let here : v < 2 ^ 64 = omega (arith, placed.low, placed.high) in
    let (above, multiple, fits) = room in
    elim (gap_lem v alignment valid here) [
      | inl (aligned, least) ↦
          let below : v + pad ≤ q = least q above multiple in
          let same : a.base + (a.offset + pad) ≡ v + pad = omega arith in
          let refused : (ltb (a.capacity - a.offset) pad || ltb (a.capacity - a.offset - pad) size)
              ≡ false =
            ground (arith, below, fits, placed.low) in
          (
            a.base + (a.offset + pad),
            (omega arith, ap (λ x. x % alignment) same ∙ aligned, omega (arith, below, fits)),
            omega (arith, below),
            rw (allocate-eq a size alignment pos valid, refused)
                (allocated-eq a (a.offset + pad) size),
          )
      | inr (end, last) ↦ absurd (omega (arith, last q above multiple, fits, placed.high))
    ]

-- A block that is handed out has room, and the cursor ends behind it.
pub allocate-IsRoom :
    (a : LinearAllocator) (size alignment p : ℕ) (after : LinearAllocator)
    → IsPlaced a
    → allocate a size alignment ≡ (some p, after)
    → IsRoom a size alignment p × (after ≡ record a { offset = p + size - a.base })
unfolding allocate
allocate-IsRoom a size alignment p after placed h =
    elim (Bool-cases (size == 0 || not (is_valid_alignment alignment))) [
      | inl bad ↦ absurd (ground (arith, h, bad))
      | inr good ↦
          let v = a.base + a.offset in
          let pad = gap v alignment in
          let valid : is_valid_alignment alignment ≡ true = ground (arith, good) in
          let pos : 0 < size = ground (arith, good) in
          let here : v < 2 ^ 64 = omega (arith, placed.low, placed.high) in
          let out = sym (allocate-eq a size alignment pos valid) ∙ h in
          elim (Bool-cases
            (ltb (a.capacity - a.offset) pad || ltb (a.capacity - a.offset - pad) size)) [
              | inl refused ↦ absurd (ground (arith, out, refused))
              | inr granted ↦
                  let e : p ≡ a.base + (a.offset + pad) = ground (arith, out, granted) in
                  let f : after ≡ record a { offset = a.offset + pad + size } =
                    ground (arith, out, granted) in
                  let short : pad + size ≤ a.capacity - a.offset = ground (arith, granted) in
                  elim (gap_lem v alignment valid here) [
                    | inl (aligned, least) ↦
                        let same : p ≡ v + pad = omega (arith, e) in
                        let end : a.offset + pad + size ≡ p + size - a.base = omega (arith, e) in
                        (
                          (
                            omega (arith, e),
                            ap (λ x. x % alignment) same ∙ aligned,
                            omega (arith, e, short, placed.low),
                          ),
                          f ∙ ap (λ x. record a { offset = x }) end,
                        )
                    | inr (end, last) ↦ absurd (omega (arith, end, short, placed.low, placed.high))
                  ]
            ]
    ]

abbrev pub granted_first : Option ℕ → ℕ → ℕ → List (ℕ × ℕ × ℕ) → List (ℕ × ℕ × ℕ)
granted_first none size alignment blocks = blocks
granted_first (some p) size alignment blocks = (p, size, alignment) ∷ blocks

-- The blocks of a list of requests, a size and an alignment each, with the alignment.
abbrev pub allocate_all : LinearAllocator → List (ℕ × ℕ) → List (ℕ × ℕ × ℕ) × LinearAllocator
allocate_all a [] = ([], a)
allocate_all a ((size, alignment) ∷ more) =
    let (found, after) = allocate a size alignment in
    let (blocks, last) = allocate_all after more in
    (granted_first found size alignment blocks, last)

-- Blocks one behind the other from `start` to `end`, each aligned.
abbrev pub Stacked : ℕ → List (ℕ × ℕ × ℕ) → ℕ → Type 0
Stacked start [] end = start ≤ end
Stacked start ((p, size, alignment) ∷ more) end =
    (start ≤ p) × (p % alignment ≡ 0) × Stacked (p + size) more end

allocate-refused :
    (a : LinearAllocator) (size alignment : ℕ) (after : LinearAllocator)
    → allocate a size alignment ≡ (none, after)
    → after ≡ a
unfolding allocate
allocate-refused a size alignment after h = ground (arith, h)

allocate-keeps :
    (a : LinearAllocator) (size alignment : ℕ) (found : Option ℕ) (after : LinearAllocator)
    → IsPlaced a
    → allocate a size alignment ≡ (found, after)
    → IsPlaced after × (after.base ≡ a.base) × (after.capacity ≡ a.capacity)
allocate-keeps a size alignment none after placed h =
    let e = allocate-refused a size alignment after h in
    (subst IsPlaced (sym e) placed, ap (λ x. x.base) e, ap (λ x. x.capacity) e)
allocate-keeps a size alignment (some p) after placed h =
    let ((low, aligned, fits), e) = allocate-IsRoom a size alignment p after placed h in
    (
      subst IsPlaced (sym e) (record { low = omega (arith, low, fits); high = placed.high }),
      ap (λ x. x.base) e,
      ap (λ x. x.capacity) e,
    )

allocate-Stacked :
    (a : LinearAllocator) (size alignment : ℕ) (found : Option ℕ) (after : LinearAllocator)
    (blocks : List (ℕ × ℕ × ℕ)) (end : ℕ)
    → IsPlaced a
    → allocate a size alignment ≡ (found, after)
    → Stacked (after.base + after.offset) blocks end
    → Stacked (a.base + a.offset) (granted_first found size alignment blocks) end
allocate-Stacked a size alignment none after blocks end placed h behind =
    subst (λ x. Stacked (x.base + x.offset) blocks end) (allocate-refused a size alignment after h)
      behind
allocate-Stacked a size alignment (some p) after blocks end placed h behind =
    let ((low, aligned, fits), e) = allocate-IsRoom a size alignment p after placed h in
    let cursor : after.base + after.offset ≡ p + size =
      ap (λ x. x.base + x.offset) e ∙ omega (arith, low) in
    (low, aligned, subst (λ start. Stacked start blocks end) cursor behind)

-- Whatever is requested, the blocks handed out are aligned, lie one behind the other, and end inside
-- the buffer.
pub allocate_all-Stacked :
    (a : LinearAllocator) (requests : List (ℕ × ℕ))
    → IsPlaced a
    → let out = allocate_all a requests in
      Stacked (a.base + a.offset) out.0 (out.1.base + out.1.offset)
      × (out.1.base + out.1.offset ≤ a.base + a.capacity)
allocate_all-Stacked a [] placed = (omega arith, omega (arith, placed.low))
allocate_all-Stacked a ((size, alignment) ∷ more) placed =
    let (found, after) = allocate a size alignment in
    let (still, same_base, same_capacity) =
      allocate-keeps a size alignment found after placed refl in
    let (stacked, inside) = allocate_all-Stacked after more still in
    let last = (allocate_all after more).1 in
    (
      allocate-Stacked a size alignment found after (allocate_all after more).0
          (last.base + last.offset) placed refl stacked,
      omega (arith, inside, same_base, same_capacity),
    )
