-- ===== src/Core/FrameAllocator/Bump.antt =====
-- FrameAllocator.cpp: a request that the current block has room for never goes to the heap.
use oyi_engine.Prelude.{
  ℕ, ◌+◌, ◌%◌, ◌^◌, ◌≤◌, ◌<◌, ◌≡◌, refl, ap, ◌∙◌, true, false, ◌||◌, some, ◌==◌, ltb, inl, inr,
  arith,
}
use oyi_engine.Core.LinearAllocator.{is_valid_alignment}
use oyi_engine.Core.LinearAllocator.Rounding.{gap, gap_lem}
use oyi_engine.Core.TaggedHeap.{Allocator, Heap, get_usable_block_size}
use oyi_engine.Core.FrameAllocator.{Frame, align_pointer, has_room, frame_allocate}

module _ {M : Type 0} (backing : Allocator M) where
  -- A request of at most the size and the alignment of a block, for which the current block has an
  -- aligned place `q` behind the cursor, gets an aligned place inside the block, behind the cursor
  -- and at or below `q`; the cursor moves behind it, and the heap is left alone.
  pub frame_allocate-least :
      (f : Frame) (h : Heap M) (size alignment cursor q : ℕ)
      → f.cursor ≡ some cursor
      → f.end < 2 ^ 64
      → 0 < size
      → is_valid_alignment alignment ≡ true
      → size ≤ get_usable_block_size backing h
      → alignment ≤ h.config.block_alignment
      → cursor ≤ q
      → q % alignment ≡ 0
      → q + size ≤ f.end
      → (p : ℕ) × (cursor ≤ p)
        × (p % alignment ≡ 0)
        × (p ≤ q)
        × (frame_allocate backing f size alignment h
            ≡ (some p, record f { cursor = some (p + size) }, h))
  unfolding frame_allocate align_pointer
  frame_allocate-least f h size alignment cursor q at high pos valid fits flat above multiple room =
      elim (gap_lem cursor alignment valid (omega (arith, above, room, high))) [
        | inl (aligned, least) ↦
            let p = cursor + gap cursor alignment in
            let below : p ≤ q = least q above multiple in
            let some_size : (size == 0) ≡ false = ground (arith, pos) in
            let small : (ltb (get_usable_block_size backing h) size
                  || ltb h.config.block_alignment alignment)
                ≡ false =
              ground (arith, fits, flat) in
            let inside : ltb f.end (p + size) ≡ false = ground (arith, below, room) in
            let chosen : has_room f.cursor alignment size f.end ≡ some p =
              ap (λ c. has_room c alignment size f.end) at ∙ rw inside refl in
            (p, omega arith, aligned, below, rw (some_size, valid, small, chosen) refl)
        | inr (end, last) ↦ absurd (omega (arith, last q above multiple, room, high))
      ]
