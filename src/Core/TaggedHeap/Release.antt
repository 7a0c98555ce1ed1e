-- ===== src/Core/TaggedHeap/Release.antt =====
-- TaggedHeap.cpp: what `FreeTag` releases, and how far `Reserve` gets.
use oyi_engine.Prelude.{
  ◌++◌, ◌⊎◌, length, All, fail, out_of_memory, false, none, Expected, ℕ, zero, suc, ◌≤◌, ◌<◌, ◌≡◌,
  refl, sym, ap, ◌∙◌, Bool, true, not, ◌&&◌, List, [], ◌∷◌, ok, ◌==◌, if◌then◌else◌, Bool-cases,
  inl, inr, arith,
}
use oyi_engine.Core.TaggedHeap.Counts.{IsCounted}
use oyi_engine.Core.TaggedHeap.{
  Allocator, Header, Heap, release_locked, free_links, free_tag, give_back,
}

-- The headers of a list that pass a test, in order.
abbrev pub select : (Header → Bool) → List Header → List Header
select test [] = []
select test (header ∷ rest) = if test header then header ∷ select test rest else select test rest

-- A list put on top of another, its first element first.
abbrev pub pile : List Header → List Header → List Header
pile [] below = below
pile (header ∷ rest) below = pile rest (header ∷ below)

abbrev pub keeps_tag : ℕ → Header → Bool
keeps_tag tag header = not (header.tag == tag)

abbrev pub frees_block : ℕ → Header → Bool
frees_block tag header = header.tag == tag && not header.large

abbrev pub frees_large : ℕ → Header → Bool
frees_large tag header = header.tag == tag && header.large

module _ {M : Type 0} (backing : Allocator M) where
  -- One header of the tag, on either path of the release.
  release_locked-select :
      (tag : ℕ) (header : Header) (rest : List Header) (h : Heap M)
      → (header.tag == tag) ≡ true
      → let next = release_locked backing h header in
        (pile (select (frees_block tag) (header ∷ rest)) h.free_list
          ≡ pile (select (frees_block tag) rest) next.free_list)
        × (give_back backing (select (frees_large tag) (header ∷ rest)) h.memory
            ≡ give_back backing (select (frees_large tag) rest) next.memory)
  unfolding release_locked give_back
  release_locked-select tag header rest h match = elim (Bool-cases header.large) [
    | inl big ↦ (ground (arith, match, big), ground (arith, match, big))
    | inr pool ↦ (ground (arith, match, pool), ground (arith, match, pool))
  ]

  -- The lists and the memory after the walk.
  free_links-select :
      (tag : ℕ) (rest : List Header) (h : Heap M)
      → let out = free_links backing tag rest h in
        (out.0 ≡ select (keeps_tag tag) rest)
        × (out.1.free_list ≡ pile (select (frees_block tag) rest) h.free_list)
        × (out.1.memory ≡ give_back backing (select (frees_large tag) rest) h.memory)
  unfolding free_links release_locked give_back
  free_links-select tag [] h = (refl, refl, refl)
  free_links-select tag (header ∷ rest) h = elim (Bool-cases (header.tag == tag)) [
    | inl match ↦
        let (kept, freed, memory) = free_links-select tag rest (release_locked backing h header) in
        let (list, left) = release_locked-select tag header rest h match in
        let taken : (if header.tag == tag then release_locked backing h header else h)
            ≡ release_locked backing h header =
          rw match refl in
        (
          rw match kept,
          ap (λ x. (free_links backing tag rest x).1.free_list) taken ∙ freed ∙ sym list,
          ap (λ x. (free_links backing tag rest x).1.memory) taken ∙ memory ∙ sym left,
        )
    | inr other ↦
        let (kept, freed, memory) = free_links-select tag rest h in
        rw other (ap (◌∷◌ header) kept, freed, memory)
  ]

  -- `FreeTag` keeps the headers of the other tags in their order, puts the blocks of the tag on the
  -- free list, and gives each large allocation of the tag back once, in the order of the list.
  pub free_tag-select :
      (tag : ℕ) (h : Heap M)
      → ((free_tag backing tag h).used_list ≡ select (keeps_tag tag) h.used_list)
        × ((free_tag backing tag h).free_list
            ≡ pile (select (frees_block tag) h.used_list) h.free_list)
        × ((free_tag backing tag h).memory
            ≡ give_back backing (select (frees_large tag) h.used_list) h.memory)
  unfolding free_tag
  free_tag-select tag h = free_links-select tag h.used_list h

  -- What is new on the free list: blocks of the heap's size, not large.
  abbrev pub Fresh : Heap M → List Header → Type 0
  Fresh h added =
      All (λ header. (header.large ≡ false) × (header.total_bytes ≡ h.config.block_size)) added

  -- The backing allocator's state after it was asked for `n` more blocks.
  pub asked : Heap M → ℕ → M → M
  asked h zero m = m
  asked h (suc n) m = asked h n (backing.allocate m h.config.block_size h.config.block_alignment).1

  -- `Reserve` got `n` blocks, and the next one was refused.
  pub Refused : Heap M → ℕ → Type 0
  Refused h n =
      (backing.allocate (asked h n h.memory) h.config.block_size h.config.block_alignment).0 ≡ none

  -- What a call of the loop leaves: blocks on top of the free list, as many as asked for, unless the
  -- backing allocator refused one.
  record IsReserved (count : ℕ) (h : Heap M) (out : Expected (Unit {0}) × Heap M) : Type 0 where
    added : List Header
    on_top : out.1.free_list ≡ added ++ h.free_list
    fresh : Fresh h added
    counted : IsCounted out.1
    ended :
        ((out.0 ≡ ok tt) × (count ≤ out.1.free_blocks))
        ⊎ ((out.0 ≡ fail out_of_memory) × Refused h (length added) × (out.1.free_blocks < count))
