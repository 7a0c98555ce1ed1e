-- ===== src/Core/TaggedHeap/Counts.antt =====
-- TaggedHeap.cpp: the statistics count the lists, and `Reserve` reaches the number asked for.
use oyi_engine.Prelude.{
  ℕ, zero, suc, ◌+◌, ◌-◌, ◌%◌, ◌^◌, ◌≡◌, refl, sym, ap, ◌∙◌, true, false, Option, none, some, List,
  [], ◌∷◌, ◌==◌, leb, ltb, not, ◌||◌, if◌then◌else◌, Bool-cases, Option-cases, inl, inr, arith,
}
use oyi_engine.Core.LinearAllocator.{is_valid_alignment, align_address}
use oyi_engine.Core.TaggedHeap.{
  header_size, large_header, Allocator, Header, Heap, decrement, release_locked, keep_free,
  reserve_loop, reserve, use_block, acquire_block, use_large, acquire_large, free_links, free_tag,
  block_at, reuse_or_fetch, new_block,
}

-- How many headers of a list are of large allocations, and how many are blocks.
abbrev pub larges : List Header → ℕ
larges [] = 0
larges (header ∷ rest) = (if header.large then 1 else 0) + larges rest

abbrev pub blocks : List Header → ℕ
blocks [] = 0
blocks (header ∷ rest) = (if header.large then 0 else 1) + blocks rest

module _ {M : Type 0} where
  -- The free list holds blocks only, and each statistic is a length, as a word.
  pub record IsCounted (h : Heap M) : Type 0 where
    pub pooled : larges h.free_list ≡ 0
    pub free_count : h.free_blocks ≡ blocks h.free_list % 2 ^ 64
    pub used_count : h.used_blocks ≡ blocks h.used_list % 2 ^ 64
    pub large_count : h.large_allocations ≡ larges h.used_list % 2 ^ 64

-- The operations that the heap's users call.
pub data Call : Type 0 where
  call_reserve call_acquire_block call_free_tag : ℕ → Call
  call_acquire_large : ℕ → ℕ → ℕ → Call

module _ {M : Type 0} (backing : Allocator M) where
  abbrev pub serve : Call → Heap M → Heap M
  serve (call_reserve count) h = (reserve backing count h).1
  serve (call_acquire_block tag) h = (acquire_block backing tag h).1
  serve (call_free_tag tag) h = free_tag backing tag h
  serve (call_acquire_large tag size alignment) h = (acquire_large backing tag size alignment h).1

  abbrev pub serve_all : List Call → Heap M → Heap M
  serve_all [] h = h
  serve_all (call ∷ calls) h = serve_all calls (serve call h)

  -- What the statistics are while `FreeTag` walks the used list, with so many of each kind left.
  record IsWalked (used large : ℕ) (h : Heap M) : Type 0 where
    pooled : larges h.free_list ≡ 0
    free_count : h.free_blocks ≡ blocks h.free_list % 2 ^ 64
    used_count : h.used_blocks ≡ used % 2 ^ 64
    large_count : h.large_allocations ≡ large % 2 ^ 64

  IsWalked-eq :
      (used large other_used other_large : ℕ) (h : Heap M)
      → IsWalked used large h
      → used ≡ other_used
      → large ≡ other_large
      → IsWalked other_used other_large h
  IsWalked-eq used large other_used other_large h w e f = record {
    pooled = w.pooled;
    free_count = w.free_count;
    used_count = omega (arith, w.used_count, e);
    large_count = omega (arith, w.large_count, f);
  }

  release_locked-IsWalked :
      (used large : ℕ) (header : Header) (h : Heap M)
      → IsWalked
          ((if header.large then 0 else 1) + used)
          ((if header.large then 1 else 0) + large)
          h
      → IsWalked used large (release_locked backing h header)
  unfolding release_locked
  release_locked-IsWalked used large header h w = elim (Bool-cases header.large) [
    | inl big ↦ rw big (record {
      pooled = w.pooled;
      free_count = w.free_count;
      used_count = ground (arith, big, w.used_count);
      large_count = ground (arith, big, w.large_count);
    })
    | inr pool ↦ rw pool (record {
      pooled = ground (arith, pool, w.pooled);
      free_count = ground (arith, pool, w.free_count);
      used_count = ground (arith, pool, w.used_count);
      large_count = ground (arith, pool, w.large_count);
    })
  ]

  free_links-IsWalked :
      (tag used large : ℕ) (rest : List Header) (h : Heap M)
      → IsWalked (used + blocks rest) (large + larges rest) h
      → let out = free_links backing tag rest h in
        IsWalked (used + blocks out.0) (large + larges out.0) out.1
  unfolding free_links
  free_links-IsWalked tag used large [] h w = w
  free_links-IsWalked tag used large (header ∷ rest) h w = elim (Bool-cases (header.tag == tag)) [
    | inl match ↦ rw match (
        free_links-IsWalked tag used large rest (release_locked backing h header) (
          release_locked-IsWalked (used + blocks rest) (large + larges rest) header h
            (IsWalked-eq _ _ _ _ h w (omega arith) (omega arith))))
    | inr other ↦ rw other (
        IsWalked-eq _ _ _ _ _
          (free_links-IsWalked tag ((if header.large then 0 else 1) + used)
            ((if header.large then 1 else 0) + large) rest h
            (IsWalked-eq _ _ _ _ h w (omega arith) (omega arith)))
          (omega arith) (omega arith))
  ]

  free_tag-IsCounted : (tag : ℕ) (h : Heap M) → IsCounted h → IsCounted (free_tag backing tag h)
  unfolding free_tag
  free_tag-IsCounted tag h c =
      let w = free_links-IsWalked tag 0 0 h.used_list h (record {
        pooled = c.pooled;
        free_count = c.free_count;
        used_count = omega (arith, c.used_count);
        large_count = omega (arith, c.large_count);
      }) in
      record {
        pooled = w.pooled;
        free_count = w.free_count;
        used_count = omega (arith, w.used_count);
        large_count = omega (arith, w.large_count);
      }

  pub memory-IsCounted : (m : M) (h : Heap M) → IsCounted h → IsCounted (record h { memory = m })
  memory-IsCounted m h c = record {
    pooled = c.pooled;
    free_count = c.free_count;
    used_count = c.used_count;
    large_count = c.large_count;
  }

  pub keep_free-IsCounted :
      (address : ℕ) (h : Heap M)
      → IsCounted h
      → IsCounted (keep_free backing (new_block h.config address) h)
  keep_free-IsCounted address h c = record {
    pooled = omega (arith, c.pooled);
    free_count = omega (arith, c.free_count);
    used_count = c.used_count;
    large_count = c.large_count;
  }

  reserve_loop-IsCounted :
      (fuel count : ℕ) (h : Heap M) → IsCounted h → IsCounted (reserve_loop backing fuel count h).1
  unfolding reserve_loop
  reserve_loop-IsCounted zero count h c = c
  reserve_loop-IsCounted (suc fuel) count h c = elim (Bool-cases (leb count h.free_blocks)) [
    | inl enough ↦ rw enough c
    | inr few ↦
        let (found, m) = backing.allocate h.memory h.config.block_size h.config.block_alignment in
        elim (Option-cases found) [
          | inl e ↦ rw (few, e) (memory-IsCounted m h c)
          | inr (address, e) ↦
              rw (few, e)
                (reserve_loop-IsCounted fuel count
                  (keep_free backing (new_block h.config address) (record h { memory = m }))
                  (keep_free-IsCounted address (record h { memory = m }) (memory-IsCounted m h c)))
        ]
  ]

  use_block-IsCounted :
      (tag : ℕ) (header : Header) (h : Heap M)
      → header.large ≡ false
      → IsCounted h
      → IsCounted (use_block backing tag (some header) h).1
  use_block-IsCounted tag header h pool c = record {
    pooled = c.pooled;
    free_count = c.free_count;
    used_count = ground (arith, pool, c.used_count);
    large_count = ground (arith, pool, c.large_count);
  }

  pooled_first :
      (header : Header) (rest : List Header)
      → larges (header ∷ rest) ≡ 0
      → (header.large ≡ false) × (larges rest ≡ 0)
  pooled_first header rest e = (ground (arith, e), omega (arith, e))

  reuse-IsCounted :
      (header : Header) (rest : List Header) (h : Heap M)
      → h.free_list ≡ header ∷ rest
      → IsCounted h
      → IsCounted (record h { free_list = rest; free_blocks = decrement h.free_blocks })
  reuse-IsCounted header rest h e c =
      let (pool, others) = pooled_first header rest (ap larges (sym e) ∙ c.pooled) in
      let total = c.free_count ∙ ap (λ xs. blocks xs % 2 ^ 64) e in
      record {
        pooled = others;
        free_count = ground (arith, pool, total);
        used_count = c.used_count;
        large_count = c.large_count;
      }

  use_fresh-IsCounted :
      (tag : ℕ) (found : Option ℕ) (h : Heap M)
      → IsCounted h
      → IsCounted (use_block backing tag (block_at h.config found) h).1
  use_fresh-IsCounted tag none h c = c
  use_fresh-IsCounted tag (some address) h c =
      use_block-IsCounted tag (new_block h.config address) h refl c

  use_first-IsCounted :
      (tag : ℕ) (free_list : List Header) (h : Heap M)
      → h.free_list ≡ free_list
      → IsCounted h
      → let out = reuse_or_fetch backing h free_list in
        IsCounted (use_block backing tag out.0 out.1).1
  use_first-IsCounted tag [] h e c =
      let (found, m) = backing.allocate h.memory h.config.block_size h.config.block_alignment in
      use_fresh-IsCounted tag found (record h { memory = m }) (memory-IsCounted m h c)
  use_first-IsCounted tag (header ∷ rest) h e c =
      let (pool, others) = pooled_first header rest (ap larges (sym e) ∙ c.pooled) in
      use_block-IsCounted tag header
        (record h { free_list = rest; free_blocks = decrement h.free_blocks }) pool
        (reuse-IsCounted header rest h e c)

  use_large-IsCounted :
      (header : Header) (header_bytes : ℕ) (found : Option ℕ) (h : Heap M)
      → header.large ≡ true
      → IsCounted h
      → IsCounted (use_large backing header header_bytes found h).1
  use_large-IsCounted header header_bytes none h big c = c
  use_large-IsCounted header header_bytes (some address) h big c = record {
    pooled = c.pooled;
    free_count = c.free_count;
    used_count = ground (arith, big, c.used_count);
    large_count = ground (arith, big, c.large_count);
  }

  acquire_large-IsCounted :
      (tag size alignment : ℕ) (h : Heap M)
      → IsCounted h
      → IsCounted (acquire_large backing tag size alignment h).1
  unfolding acquire_large
  acquire_large-IsCounted tag size alignment h c =
      let most =
        if ltb h.config.block_alignment alignment then alignment else h.config.block_alignment in
      let header_bytes = align_address header_size most in
      elim (Bool-cases (size == 0 || not (is_valid_alignment alignment))) [
        | inl refused ↦ rw refused c
        | inr valid ↦ elim (Bool-cases (ltb (2 ^ 64 - 1 - header_bytes) size)) [
          | inl refused ↦ rw (valid, refused) c
          | inr fits ↦
              let (found, m) = backing.allocate h.memory (header_bytes + size) most in
              rw (valid, fits)
                (use_large-IsCounted (large_header tag (header_bytes + size) most) header_bytes
                  found (record h { memory = m }) refl (memory-IsCounted m h c))
        ]
      ]

  -- Whatever its users call, the free list holds blocks only, and each statistic is the length of
  -- its list as a word of 64 bits.
  pub serve_all-IsCounted :
      (calls : List Call) (h : Heap M) → IsCounted h → IsCounted (serve_all calls h)
  unfolding reserve
  serve_all-IsCounted [] h c = c
  serve_all-IsCounted (call_reserve count ∷ calls) h c =
      serve_all-IsCounted calls _ (reserve_loop-IsCounted count count h c)
  serve_all-IsCounted (call_acquire_block tag ∷ calls) h c =
      serve_all-IsCounted calls _ (use_first-IsCounted tag h.free_list h refl c)
  serve_all-IsCounted (call_free_tag tag ∷ calls) h c =
      serve_all-IsCounted calls _ (free_tag-IsCounted tag h c)
  serve_all-IsCounted (call_acquire_large tag size alignment ∷ calls) h c =
      serve_all-IsCounted calls _ (acquire_large-IsCounted tag size alignment h c)
