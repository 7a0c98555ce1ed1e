-- ===== src/Core/LinearAllocator.antt =====
-- engine/oyi_core/src/oyi_core/LinearAllocator.cpp: a bump allocator over one buffer, and the
-- arithmetic on alignments of engine/oyi_core/include/oyi_core/Memory.h that it uses. Addresses and
-- sizes are words of 64 bits.
pub mod Rounding
mod Blocks
mod Tests
use oyi_engine.Prelude.{
  ℕ, zero, suc, ◌+◌, ◌-◌, ◌*◌, ◌/◌, ◌%◌, ◌^◌, Bool, true, false, not, ◌||◌, Option, none, some,
  ◌==◌, ltb, if◌then◌else◌,
}

-- `IsValidAlignment`, that is, `std::has_single_bit`: one of the powers of two below 2 ^ 64.
unfoldable pub is_power_below : ℕ → ℕ → Bool
is_power_below zero n = false
is_power_below (suc bits) n = n == 2 ^ bits || is_power_below bits n

unfoldable pub is_valid_alignment : ℕ → Bool
unfolding is_power_below
is_valid_alignment alignment = is_power_below 64 alignment

-- `AlignUp`. The alignment is a power of two, for which clearing the low bits is rounding down.
unfoldable pub align_address : ℕ → ℕ → ℕ
align_address value alignment = (value + alignment - 1) % 2 ^ 64 / alignment * alignment

-- The buffer as the address of its first byte and its size.
pub record LinearAllocator : Type 0 where
  pub base : ℕ
  pub capacity : ℕ
  pub offset : ℕ

-- The constructor
abbrev pub new_allocator : ℕ → ℕ → LinearAllocator
new_allocator base capacity = record { base = base; capacity = capacity; offset = 0 }

-- The padding in front of the next block
unfoldable pub padding_of : LinearAllocator → ℕ → ℕ
unfolding align_address
padding_of a alignment =
    let address = a.base + a.offset in (align_address address alignment + 2 ^ 64 - address) % 2 ^ 64

-- `Allocate`: the address of the block, none for `nullptr`, and the allocator afterwards.
unfoldable pub allocate : LinearAllocator → ℕ → ℕ → Option ℕ × LinearAllocator
unfolding is_valid_alignment padding_of
allocate a size alignment =
    if size == 0 || not (is_valid_alignment alignment)
    then (none, a)
    else let padding = padding_of a alignment in
      let remaining = a.capacity - a.offset in
      if ltb remaining padding || ltb (remaining - padding) size
      then (none, a)
      else let start = a.offset + padding in
        (some (a.base + start), record a { offset = start + size })

-- `Reset`, `GetUsedBytes` and `GetCapacity`
abbrev pub reset : LinearAllocator → LinearAllocator
reset a = record a { offset = 0 }

abbrev pub get_used_bytes : LinearAllocator → ℕ
get_used_bytes a = a.offset

abbrev pub get_capacity : LinearAllocator → ℕ
get_capacity a = a.capacity
