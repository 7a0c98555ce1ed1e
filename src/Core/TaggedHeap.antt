-- ===== src/Core/TaggedHeap.antt =====
-- engine/oyi_core/src/oyi_core/TaggedHeap.cpp: blocks of one size handed out under a tag and
-- released together, and requests too large for a block. The mutex makes each operation one step.
-- A block is known by the address of its header; the lists hold headers in the order of their links.
mod Counts
mod Release
mod Tests
use oyi_engine.Prelude.{
  ℕ, zero, suc, ◌+◌, ◌-◌, ◌%◌, ◌^◌, Bool, true, false, not, ◌||◌, Option, none, some, List, [], ◌∷◌,
  ErrorCode, out_of_memory, Expected, ok, fail, ◌==◌, ltb, leb, if◌then◌else◌,
}
use oyi_engine.Core.LinearAllocator.{is_valid_alignment, align_address}

-- `Allocator`: a backing allocator with the state `M`. `allocate` takes a size and an alignment, and
-- `free` an address, a size and an alignment.
pub record Allocator (M : Type 0) : Type 0 where
  pub allocate : M → ℕ → ℕ → Option ℕ × M
  pub free : M → ℕ → ℕ → ℕ → M

-- `BlockHeader`
pub record Header : Type 0 where
  pub address : ℕ
  pub tag : ℕ
  pub large : Bool
  pub total_bytes : ℕ
  pub alignment : ℕ

pub record Config : Type 0 where
  pub block_size : ℕ
  pub block_alignment : ℕ

pub record Heap (M : Type 0) : Type 0 where
  pub memory : M
  pub config : Config
  pub header_bytes : ℕ
  pub free_list : List Header
  pub used_list : List Header
  pub free_blocks : ℕ
  pub used_blocks : ℕ
  pub large_allocations : ℕ

-- `sizeof(BlockHeader)`, with pointers of 64 bits
abbrev pub header_size : ℕ
header_size = 32

-- `++` and `--` on a word of 64 bits
abbrev pub increment : ℕ → ℕ
increment n = (n + 1) % 2 ^ 64

abbrev pub decrement : ℕ → ℕ
decrement n = (n + 2 ^ 64 - 1) % 2 ^ 64

abbrev pub new_block : Config → ℕ → Header
new_block config address = record {
  address = address;
  tag = 0;
  large = false;
  total_bytes = config.block_size;
  alignment = config.block_alignment;
}

-- The header of a large allocation, whose address is not known yet
abbrev pub large_header : ℕ → ℕ → ℕ → Header
large_header tag total_bytes alignment = record {
  address = 0;
  tag = tag;
  large = true;
  total_bytes = total_bytes;
  alignment = alignment;
}

-- The header written into the memory, if there is any
abbrev pub block_at : Config → Option ℕ → Option Header
block_at config none = none
block_at config (some address) = some (new_block config address)

module _ {M : Type 0} (backing : Allocator M) where
  -- The constructor; none where a check stops the program.
  unfoldable pub new_heap : M → Config → Option (Heap M)
  new_heap memory config =
      let header_bytes = align_address header_size config.block_alignment in
      if not (is_valid_alignment config.block_alignment)
        || config.block_size == 0
        || not (config.block_size % config.block_alignment == 0)
        || leb config.block_size header_bytes
      then none
      else some record {
        memory = memory;
        config = config;
        header_bytes = header_bytes;
        free_list = [];
        used_list = [];
        free_blocks = 0;
        used_blocks = 0;
        large_allocations = 0;
      }

  -- A block fresh from the backing allocator
  abbrev pub fresh_block : Heap M → Option Header × Heap M
  fresh_block h =
      let (found, memory) =
        backing.allocate h.memory h.config.block_size h.config.block_alignment in
      (block_at h.config found, record h { memory = memory })

  -- `AllocateBlockLocked`
  abbrev pub reuse_or_fetch : Heap M → List Header → Option Header × Heap M
  reuse_or_fetch h [] = fresh_block h
  reuse_or_fetch h (header ∷ rest) =
      (some header, record h { free_list = rest; free_blocks = decrement h.free_blocks })

  abbrev pub allocate_block_locked : Heap M → Option Header × Heap M
  allocate_block_locked h = reuse_or_fetch h h.free_list

  -- `ReleaseLocked`
  unfoldable pub release_locked : Heap M → Header → Heap M
  release_locked h header =
      if header.large
      then record h {
        large_allocations = decrement h.large_allocations;
        memory = backing.free h.memory header.address header.total_bytes header.alignment;
      }
      else record h {
        used_blocks = decrement h.used_blocks;
        free_list = header ∷ h.free_list;
        free_blocks = increment h.free_blocks;
      }

  -- What a round of `Reserve` does with the new block
  abbrev pub keep_free : Header → Heap M → Heap M
  keep_free header h = record h {
    free_list = header ∷ h.free_list;
    free_blocks = increment h.free_blocks;
  }

  -- The loop of `Reserve`, on fuel
  unfoldable pub reserve_loop : ℕ → ℕ → Heap M → Expected (Unit {0}) × Heap M
  reserve_loop zero block_count h = (ok tt, h)
  reserve_loop (suc fuel) block_count h =
      if leb block_count h.free_blocks
      then (ok tt, h)
      else let (found, after) = fresh_block h in
        elim found [
          | none ↦ (fail out_of_memory, after)
          | some header ↦ reserve_loop fuel block_count (keep_free header after)
        ]

  unfoldable pub reserve : ℕ → Heap M → Expected (Unit {0}) × Heap M
  unfolding reserve_loop
  reserve block_count h = reserve_loop block_count block_count h

  -- `AcquireBlock`: the usable area, as its address and size; none for an empty span.
  abbrev pub use_block : ℕ → Option Header → Heap M → Option (ℕ × ℕ) × Heap M
  use_block tag none h = (none, h)
  use_block tag (some header) h = (
    some (header.address + h.header_bytes, h.config.block_size - h.header_bytes),
    record h {
      used_list = record header { tag = tag } ∷ h.used_list;
      used_blocks = increment h.used_blocks;
    },
  )

  abbrev pub acquire_block : ℕ → Heap M → Option (ℕ × ℕ) × Heap M
  acquire_block tag h = let (found, after) = allocate_block_locked h in use_block tag found after

  -- `AcquireLarge`
  abbrev pub use_large : Header → ℕ → Option ℕ → Heap M → Option ℕ × Heap M
  use_large header header_bytes none h = (none, h)
  use_large header header_bytes (some address) h = (
    some (address + header_bytes),
    record h {
      used_list = record header { address = address } ∷ h.used_list;
      large_allocations = increment h.large_allocations;
    },
  )

  unfoldable pub acquire_large : ℕ → ℕ → ℕ → Heap M → Option ℕ × Heap M
  acquire_large tag size alignment h =
      if size == 0 || not (is_valid_alignment alignment)
      then (none, h)
      else let block_alignment =
          if ltb h.config.block_alignment alignment then alignment else h.config.block_alignment in
        let header_bytes = align_address header_size block_alignment in
        if ltb (2 ^ 64 - 1 - header_bytes) size
        then (none, h)
        else let total_bytes = header_bytes + size in
          let (found, memory) = backing.allocate h.memory total_bytes block_alignment in
          use_large (large_header tag total_bytes block_alignment) header_bytes found
            (record h { memory = memory })

  -- The loop of `FreeTag`: the headers that stay linked, and the heap with the others released
  unfoldable pub free_links : ℕ → List Header → Heap M → List Header × Heap M
  unfolding release_locked
  free_links tag [] h = ([], h)
  free_links tag (header ∷ rest) h =
      let (kept, last) =
        free_links tag rest (if header.tag == tag then release_locked h header else h) in
      ((if header.tag == tag then kept else header ∷ kept), last)

  unfoldable pub free_tag : ℕ → Heap M → Heap M
  unfolding free_links
  free_tag tag h =
      let (kept, last) = free_links tag h.used_list h in record last { used_list = kept }

  -- The destructor: what is left of the backing memory
  unfoldable pub give_back : List Header → M → M
  give_back [] memory = memory
  give_back (header ∷ rest) memory =
      give_back rest (backing.free memory header.address header.total_bytes header.alignment)

  unfoldable pub destroy_heap : Heap M → M
  unfolding give_back
  destroy_heap h = give_back h.used_list (give_back h.free_list h.memory)

  -- `GetUsableBlockSize`
  abbrev pub get_usable_block_size : Heap M → ℕ
  get_usable_block_size h = h.config.block_size - h.header_bytes
