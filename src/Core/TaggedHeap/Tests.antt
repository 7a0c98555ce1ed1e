-- ===== src/Core/TaggedHeap/Tests.antt =====
-- The heap over a backing allocator that hands out rising addresses and lists what it gets back.
use oyi_engine.Prelude.{length, ℕ, ◌+◌, ◌≡◌, refl, some, List, [], ◌∷◌}
use oyi_engine.Core.LinearAllocator.{is_power_below, is_valid_alignment, align_address}
use oyi_engine.Core.TaggedHeap.{
  Allocator, Heap, new_heap, release_locked, reserve_loop, reserve, acquire_large, free_links,
  free_tag, give_back,
}
use oyi_engine.Core.TaggedHeap.Counts.{
  Call, call_reserve, call_acquire_block, call_free_tag, call_acquire_large, IsCounted, serve_all,
  serve_all-IsCounted,
}
use oyi_engine.Core.TaggedHeap.Release.{
  select, pile, keeps_tag, frees_block, frees_large, free_tag-select,
}

record Arena : Type 0 where
  next_address : ℕ
  returned : List ℕ

abbrev rising : Allocator Arena
rising = record {
  allocate =
      λ m size alignment. (some m.next_address, record m { next_address = m.next_address + 65536 });
  free = λ m address size alignment. record m { returned = address ∷ m.returned };
}

abbrev empty_heap : Heap Arena
empty_heap = record {
  memory = record { next_address = 65536; returned = [] };
  config = record { block_size = 4096; block_alignment = 64 };
  header_bytes = 64;
  free_list = [];
  used_list = [];
  free_blocks = 0;
  used_blocks = 0;
  large_allocations = 0;
}

abbrev calls : List Call
calls =
    call_reserve 1 ∷ call_acquire_block 7 ∷ call_acquire_large 7 5000 8 ∷ call_acquire_block 8 ∷ []

abbrev busy : Heap Arena
busy = serve_all rising calls empty_heap

new_empty :
    new_heap rising
      record { next_address = 65536; returned = [] }
      record { block_size = 4096; block_alignment = 64 }
    ≡ some empty_heap
unfolding new_heap is_valid_alignment is_power_below align_address
new_empty = refl

busy_statistics : busy.free_blocks ∷ busy.used_blocks ∷ busy.large_allocations ∷ [] ≡ 0 ∷ 2 ∷ 1 ∷ []
unfolding reserve reserve_loop acquire_large is_valid_alignment is_power_below align_address
busy_statistics = refl

-- The block of tag 7 is free again and its large allocation given back; tag 8 keeps its block.
freed_seven :
    let h = free_tag rising 7 busy in
    h.free_blocks ∷ h.used_blocks ∷ h.large_allocations ∷ h.memory.returned
    ≡ 1 ∷ 1 ∷ 0 ∷ 131072 ∷ []
unfolding reserve reserve_loop acquire_large is_valid_alignment is_power_below align_address
    free_tag free_links release_locked
freed_seven = refl

empty_heap-IsCounted : IsCounted empty_heap
empty_heap-IsCounted = record {
  pooled = refl;
  free_count = refl;
  used_count = refl;
  large_count = refl;
}

serve_all-IsCounted_example : IsCounted (serve_all rising (call_free_tag 7 ∷ calls) empty_heap)
serve_all-IsCounted_example =
    serve_all-IsCounted rising (call_free_tag 7 ∷ calls) empty_heap empty_heap-IsCounted

free_tag-select_example :
    ((free_tag rising 7 busy).used_list ≡ select (keeps_tag 7) busy.used_list)
    × ((free_tag rising 7 busy).free_list
        ≡ pile (select (frees_block 7) busy.used_list) busy.free_list)
    × ((free_tag rising 7 busy).memory
        ≡ give_back rising (select (frees_large 7) busy.used_list) busy.memory)
free_tag-select_example = free_tag-select rising 7 busy

reserved : length (reserve rising 2 empty_heap).1.free_list ≡ 2
unfolding reserve reserve_loop
reserved = refl
