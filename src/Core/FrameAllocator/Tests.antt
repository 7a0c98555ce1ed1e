-- ===== src/Core/FrameAllocator/Tests.antt =====
-- A frame allocator over a heap whose backing allocator hands out one address only.
use oyi_engine.Prelude.{ℕ, ◌+◌, ◌%◌, ◌≤◌, ◌≡◌, refl, true, some, [], arith}
use oyi_engine.Core.LinearAllocator.{is_power_below, is_valid_alignment}
use oyi_engine.Core.TaggedHeap.{Allocator, Heap}
use oyi_engine.Core.FrameAllocator.{Frame, new_frame, frame_allocate}
use oyi_engine.Core.FrameAllocator.Bump.{frame_allocate-least}

abbrev one_address : Allocator ℕ
one_address = record {
  allocate = λ m size alignment. (some 65536, m + 1);
  free = λ m address size alignment. m;
}

abbrev heap : Heap ℕ
heap = record {
  memory = 0;
  config = record { block_size = 4096; block_alignment = 64 };
  header_bytes = 64;
  free_list = [];
  used_list = [];
  free_blocks = 0;
  used_blocks = 0;
  large_allocations = 0;
}

-- The frame after a first request of 10 bytes, which takes a block.
abbrev first : Frame
first = record { tag = 3; cursor = some 65610; end = 69632 }

first_request : (frame_allocate one_address (new_frame 3) 10 8 heap).1 ≡ first
unfolding frame_allocate is_valid_alignment is_power_below
first_request = refl

-- A request that does not fit a block is answered by a large allocation and leaves the frame alone.
large_request : (frame_allocate one_address first 5000 8 heap).1 ≡ first
unfolding frame_allocate is_valid_alignment is_power_below
large_request = refl

valid_sixteen : is_valid_alignment 16 ≡ true
unfolding is_valid_alignment is_power_below
valid_sixteen = refl

frame_allocate-least_example :
    (p : ℕ) × (65610 ≤ p)
    × (p % 16 ≡ 0)
    × (p ≤ 65632)
    × (frame_allocate one_address first 20 16 heap
        ≡ (some p, record first { cursor = some (p + 20) }, heap))
frame_allocate-least_example =
    frame_allocate-least one_address first heap 20 16 65610 65632 refl (omega arith) (omega arith)
      valid_sixteen (omega arith) (omega arith) (omega arith) (omega arith) (omega arith)
