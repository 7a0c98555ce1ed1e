-- ===== src/Core/LinearAllocator/Tests.antt =====
-- The linear allocator over a buffer of 200 bytes at address 100.
use oyi_engine.Prelude.{ℕ, ◌+◌, ◌-◌, ◌≤◌, ◌≡◌, refl, true, some, List, [], ◌∷◌, arith}
use oyi_engine.Core.LinearAllocator.{
  LinearAllocator, new_allocator, is_power_below, is_valid_alignment, align_address, padding_of,
  allocate, reset, get_used_bytes,
}
use oyi_engine.Core.LinearAllocator.Blocks.{
  IsPlaced, IsRoom, Stacked, allocate_all, allocate_least, allocate_all-Stacked,
}

abbrev small : LinearAllocator
small = new_allocator 100 200

abbrev requests : List (ℕ × ℕ)
requests = (10, 8) ∷ (0, 8) ∷ (5, 64) ∷ (4, 3) ∷ (500, 1) ∷ []

small-IsPlaced : IsPlaced small
small-IsPlaced = record { low = omega arith; high = omega arith }

blocks_of_requests : (allocate_all small requests).0 ≡ (104, 10, 8) ∷ (128, 5, 64) ∷ []
unfolding allocate padding_of align_address is_valid_alignment is_power_below
blocks_of_requests = refl

used : get_used_bytes (allocate_all small requests).1 ≡ 33
unfolding allocate padding_of align_address is_valid_alignment is_power_below
used = refl

reset_used : get_used_bytes (reset (allocate_all small requests).1) ≡ 0
reset_used = refl

valid_eight : is_valid_alignment 8 ≡ true
unfolding is_valid_alignment is_power_below
valid_eight = refl

allocate_least_example :
    (p : ℕ) × IsRoom small 10 8 p
    × (p ≤ 112)
    × (allocate small 10 8 ≡ (some p, record small { offset = p + 10 - 100 }))
allocate_least_example =
    allocate_least small 10 8 112 small-IsPlaced (omega arith) valid_eight
      (omega arith, omega arith, omega arith)

allocate_all-Stacked_example :
    let out = allocate_all small requests in
    Stacked 100 out.0 (out.1.base + out.1.offset) × (out.1.base + out.1.offset ≤ 300)
allocate_all-Stacked_example = allocate_all-Stacked small requests small-IsPlaced
