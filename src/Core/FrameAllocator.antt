-- ===== src/Core/FrameAllocator.antt =====
-- engine/oyi_core/src/oyi_core/FrameAllocator.cpp: a bump allocator over the blocks of a heap.
mod Bump
mod Tests
use oyi_engine.Prelude.{
  ℕ, ◌+◌, ◌-◌, ◌%◌, ◌^◌, Bool, true, not, ◌||◌, Option, none, some, ◌==◌, ltb, if◌then◌else◌,
}
use oyi_engine.Core.LinearAllocator.{is_valid_alignment, align_address}
use oyi_engine.Core.TaggedHeap.{
  Allocator, Heap, acquire_block, acquire_large, get_usable_block_size,
}

-- The cursor is none for `nullptr`; `end` is read only where there is a cursor.
pub record Frame : Type 0 where
  pub tag : ℕ
  pub cursor : Option ℕ
  pub end : ℕ

-- The constructor and `SetTag`
abbrev pub new_frame : ℕ → Frame
new_frame tag = record { tag = tag; cursor = none; end = 0 }

abbrev pub set_tag : Frame → ℕ → Frame
set_tag f tag = record { tag = tag; cursor = none; end = 0 }

-- `AlignUp` of a pointer
unfoldable pub align_pointer : ℕ → ℕ → ℕ
align_pointer p alignment = p + (align_address p alignment + 2 ^ 64 - p) % 2 ^ 64

-- The test for a new block; what is left of the block, `end - p`, is negative where `end` is below `p`.
abbrev pub has_room : Option ℕ → ℕ → ℕ → ℕ → Option ℕ
has_room none alignment size end = none
has_room (some cursor) alignment size end =
    let p = align_pointer cursor alignment in if ltb end (p + size) then none else some p

module _ {M : Type 0} (backing : Allocator M) where
  -- A block of the heap becomes the current one.
  abbrev pub enter_block : ℕ → Frame → Option (ℕ × ℕ) → Heap M → Option ℕ × Frame × Heap M
  enter_block size f none h = (none, f, h)
  enter_block size f (some (start, bytes)) h =
      (some start, record f { cursor = some (start + size); end = start + bytes }, h)

  abbrev pub bump : ℕ → Frame → Option ℕ → Heap M → Option ℕ × Frame × Heap M
  bump size f none h =
      let (block, after) = acquire_block backing f.tag h in enter_block size f block after
  bump size f (some p) h = (some p, record f { cursor = some (p + size) }, h)

  -- `Allocate`
  unfoldable pub frame_allocate : Frame → ℕ → ℕ → Heap M → Option ℕ × Frame × Heap M
  frame_allocate f size alignment h =
      if size == 0 || not (is_valid_alignment alignment)
      then (none, f, h)
      else if ltb (get_usable_block_size backing h) size || ltb h.config.block_alignment alignment
      then (let (found, after) = acquire_large backing f.tag size alignment h in (found, f, after))
      else bump size f (has_room f.cursor alignment size f.end) h
