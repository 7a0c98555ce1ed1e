-- ===== src/Ecs/ChunkLayout/Fits.antt =====
-- ChunkLayout.cpp: the parts of a chunk do not overlap, are aligned, and lie inside the chunk.
use native.Mathlib.Nat.{mul_comm, div-add-mod, mod-lt, mul-mod_left}
use oyi_engine.Prelude.{
  ℕ, zero, suc, ◌+◌, ◌-◌, ◌*◌, ◌/◌, ◌%◌, ◌≤◌, ◌<◌, ◌≡◌, refl, sym, subst, ap, map, Option, Bool,
  inl, inr, some, List, [], ◌∷◌, leb, ◌==◌, if◌then◌else◌, length, ok, Bool-cases, Option-cases,
  ==_iff, arith,
}
use oyi_engine.Ecs.ComponentRegistry.{Bytes, Info, Infos, is_chunk}
use oyi_engine.Ecs.ComponentMask
use oyi_engine.Ecs.ComponentMask.{Mask}
use oyi_engine.Ecs.ChunkLayout.{
  word, Column, Layout, align_up, cache_line, entity_size, enable_words_of, infos_of, has_column,
  bytes_per_entity, place_components, place_columns, try_layout, shrink, fixed_guess, compute,
}

abbrev pub Entry : Type 0
Entry = ℕ × ℕ × Info

-- Rounding up, while nothing wraps: at least the value, less than one alignment above it, a multiple.
pub align_up-bounds :
    (value alignment : ℕ)
    → 0 < alignment
    → value + alignment < word
    → (value ≤ align_up value alignment)
      × (align_up value alignment < value + alignment)
      × (align_up value alignment % alignment ≡ 0)
unfolding align_up
align_up-bounds v a pos small =
    let w = v + a - 1 in
    let whole : w % word ≡ w = omega arith in
    let split : w / a * a + w % a ≡ w = rw (mul_comm (w / a) a) (div-add-mod w a) in
    let below : w % a < a = mod-lt w pos in
    rw whole (omega (arith, split, below), omega (arith, split, below), mul-mod_left (w / a) a)

-- Areas of `n` elements of each column, one behind the other from `start` to `end`.
abbrev pub Stacked : ℕ → ℕ → List Column → ℕ → Type 0
Stacked n start [] end = start ≤ end
Stacked n start (c ∷ cs) end = (start ≤ c.offset) × Stacked n (c.offset + n * c.size) cs end

abbrev pub Aligned : List Column → Type 0
Aligned [] = Unit
Aligned (c ∷ cs) = (c.offset % cache_line ≡ 0) × Aligned cs

-- The most that the columns can take.
abbrev pub column_space : ℕ → List Entry → ℕ
column_space n [] = 0
column_space n ((slot, type, info) ∷ more) =
    (if has_column info then cache_line + n * info.size else 0) + column_space n more

pub place_columns-Stacked :
    (n offset : ℕ) (es : List Entry)
    → offset + column_space n es < word
    → let out = place_columns n offset es in
      Stacked n offset out.0 out.1 × Aligned out.0 × (out.1 ≤ offset + column_space n es)
unfolding place_columns
place_columns-Stacked n offset [] small = (omega arith, tt, omega arith)
place_columns-Stacked n offset ((slot, type, info) ∷ more) small =
    elim (Bool-cases (has_column info)) [
      | inl column ↦
          let start = align_up offset cache_line in
          let (low, high, aligned) =
            align_up-bounds offset cache_line (omega arith) (ground (arith, small, column)) in
          let next : (start + n * info.size) % word ≡ start + n * info.size =
            ground (arith, small, column, high) in
          let (stacked, rest, bound) =
            place_columns-Stacked n (start + n * info.size) more
              (ground (arith, small, column, high)) in
          rw column (rw next ((low, stacked), (aligned, rest), (ground (arith, bound, high))))
      | inr other ↦
          let (stacked, rest, bound) =
            place_columns-Stacked n offset more (ground (arith, small, other)) in
          rw other (stacked, rest, omega (arith, bound))
    ]

-- The most that the chunk components can take.
abbrev pub component_space : List Entry → ℕ
component_space [] = 0
component_space ((slot, type, info) ∷ more) =
    (if is_chunk info then info.align + info.size else 0) + component_space more

-- The registry's alignments are positive.
abbrev pub HasAligns : List Entry → Type 0
HasAligns [] = Unit
HasAligns ((slot, type, info) ∷ more) = (0 < info.align) × HasAligns more

pub place_components-Stacked :
    (offset : ℕ) (es : List Entry)
    → HasAligns es
    → offset + component_space es < word
    → let out = place_components offset es in
      Stacked 1 offset out.0 out.1 × (out.1 ≤ offset + component_space es)
unfolding place_components
place_components-Stacked offset [] aligns small = (omega arith, omega arith)
place_components-Stacked offset ((slot, type, info) ∷ more) aligns small =
    elim (Bool-cases (is_chunk info)) [
      | inl chunk ↦
          let start = align_up offset info.align in
          let (low, high, aligned) =
            align_up-bounds offset info.align aligns.0 (ground (arith, small, chunk)) in
          let next : (start + info.size) % word ≡ start + 1 * info.size =
            ground (arith, small, chunk, high) in
          let (stacked, bound) =
            place_components-Stacked (start + 1 * info.size) more aligns.1
              (ground (arith, small, chunk, high)) in
          rw chunk (rw next ((low, stacked), ground (arith, bound, high)))
      | inr other ↦
          let (stacked, bound) =
            place_components-Stacked offset more aligns.1 (ground (arith, small, other)) in
          rw other (stacked, omega (arith, bound))
    ]

-- What the loop over the capacity finds: the largest one up to `n` whose layout fits.
pub record Found (chunk_size : ℕ) (types : List ℕ) (es : List Entry) (n : ℕ) (l : Layout)
    : Type 0 where
  pub positive : 0 < l.capacity
  pub below : l.capacity ≤ n
  pub laid_out : l ≡ try_layout chunk_size types es l.capacity
  pub inside : l.used_bytes ≤ chunk_size
  pub largest :
      (k : ℕ) → l.capacity < k → k ≤ n → chunk_size < (try_layout chunk_size types es k).used_bytes

ok-same {ℓ} : {A : Type ℓ} (a b : A) → ok a ≡ ok b → a ≡ b
ok-same a b h = cc

pub shrink-Found :
    (chunk_size : ℕ) (types : List ℕ) (es : List Entry) (n : ℕ) (l : Layout)
    → shrink chunk_size types es n ≡ ok l
    → Found chunk_size types es n l
unfolding shrink
shrink-Found s types es zero l h = cc
shrink-Found s types es (suc n) l h =
    elim (Bool-cases (leb (try_layout s types es (suc n)).used_bytes s)) [
      | inl fits ↦
          let same : try_layout s types es (suc n) ≡ l = ok-same _ _ (ground (arith, h, fits)) in
          subst (Found s types es (suc n)) same (record {
            positive = omega arith;
            below = omega arith;
            laid_out = refl;
            inside = ground (arith, fits);
            largest = λ k lt le. absurd (omega arith);
          })
      | inr over ↦
          let over_size : s < (try_layout s types es (suc n)).used_bytes = ground (arith, over) in
          let found = shrink-Found s types es n l (ground (arith, h, over)) in
          record {
            positive = found.positive;
            below = omega (arith, found.below);
            laid_out = found.laid_out;
            inside = found.inside;
            largest = λ k lt le. elim (Bool-cases (k == suc n)) [
              | inl last ↦
                  subst (λ i. s < (try_layout s types es i).used_bytes)
                    (sym ((==_iff k (suc n)).0 last)) over_size
              | inr earlier ↦ found.largest k lt (ground (arith, le, earlier))
            ];
          }
    ]

-- The most that a chunk of the given types and capacity takes.
abbrev pub space : ℕ → List Entry → ℕ → ℕ
space type_count es capacity =
    type_count * 4
    + 8
    + type_count * enable_words_of capacity * 8
    + component_space es
    + cache_line
    + capacity * entity_size
    + column_space capacity es

-- The parts of a chunk in their order, none overlapping the next.
pub record Parts (l : Layout) : Type 0 where
  pub versions : l.version_offset + length l.types * 4 ≤ l.enable_offset
  pub enable_aligned : l.enable_offset % 8 ≡ 0
  pub enough_bits : l.capacity ≤ l.enable_words * 64
  pub components_end : ℕ
  pub components :
      Stacked 1
        (l.enable_offset + length l.types * l.enable_words * 8)
        l.chunk_components
        components_end
  pub entities : components_end ≤ l.entity_offset
  pub entities_aligned : l.entity_offset % cache_line ≡ 0
  pub columns :
      Stacked l.capacity (l.entity_offset + l.capacity * entity_size) l.columns l.used_bytes
  pub columns_aligned : Aligned l.columns

pub try_layout-Parts :
    (chunk_size : ℕ) (types : List ℕ) (es : List Entry) (capacity : ℕ)
    → HasAligns es
    → space (length types) es capacity + 64 < word
    → Parts (try_layout chunk_size types es capacity)
unfolding try_layout enable_words_of
try_layout-Parts s types es n aligns small =
    let count = length types in
    let words = enable_words_of n in
    let (e_low, e_high, e_aligned) = align_up-bounds (count * 4) 8 (omega arith) (omega arith) in
    let enable = align_up (count * 4) 8 in
    let first = enable + count * words * 8 in
    let (stacked, bound) =
      place_components-Stacked first es aligns (omega (arith, small, e_high)) in
    let after = (place_components first es).1 in
    let (low, high, aligned) =
      align_up-bounds after cache_line (omega arith) (omega (arith, small, e_high, bound)) in
    let entities = align_up after cache_line in
    let (columns, c_aligned, c_bound) =
      place_columns-Stacked n (entities + n * entity_size) es
        (omega (arith, small, e_high, bound, high)) in
    let w1 : count * 4 % word ≡ count * 4 = omega (arith, small) in
    let w2 : (enable + count * words * 8) % word ≡ first = omega (arith, small, e_high) in
    let w3 : (entities + n * entity_size) % word ≡ entities + n * entity_size =
      omega (arith, small, e_high, bound, high) in
    rw (w1, try_layout)
      (rw w2 (
        rw w3 (record {
          versions = omega (arith, e_low);
          enable_aligned = e_aligned;
          enough_bits = omega arith;
          components_end = after;
          components = stacked;
          entities = low;
          entities_aligned = aligned;
          columns = columns;
          columns_aligned = c_aligned;
        })))

-- What a column says of its component, its offset apart.
abbrev pub described : Column → ℕ × ℕ × ℕ × Option Bytes
described c = (c.slot, c.type, c.size, c.default)

-- The components that pass a test, in the order of their slots.
abbrev pub wanted : (Info → Bool) → List Entry → List (ℕ × ℕ × ℕ × Option Bytes)
wanted test [] = []
wanted test ((slot, type, info) ∷ more) =
    if test info then (slot, type, info.size, info.default) ∷ wanted test more else wanted test more

place_columns-wanted :
    (n offset : ℕ) (es : List Entry)
    → map described (place_columns n offset es).0 ≡ wanted has_column es
unfolding place_columns
place_columns-wanted n offset [] = refl
place_columns-wanted n offset ((slot, type, info) ∷ more) = elim (Bool-cases (has_column info)) [
  | inl column ↦ rw column (
      ap (◌∷◌ (slot, type, info.size, info.default))
        (place_columns-wanted n ((align_up offset cache_line + n * info.size) % word) more))
  | inr other ↦ rw other (place_columns-wanted n offset more)
]

place_components-wanted :
    (offset : ℕ) (es : List Entry)
    → map described (place_components offset es).0 ≡ wanted is_chunk es
unfolding place_components
place_components-wanted offset [] = refl
place_components-wanted offset ((slot, type, info) ∷ more) = elim (Bool-cases (is_chunk info)) [
  | inl chunk ↦ rw chunk (
      ap (◌∷◌ (slot, type, info.size, info.default))
        (place_components-wanted ((align_up offset info.align + info.size) % word) more))
  | inr other ↦ rw other (place_components-wanted offset more)
]

-- A layout of the components of a list, each with its slot, type, size and default.
pub record Describes (chunk_size : ℕ) (types : List ℕ) (es : List Entry) (l : Layout) : Type 0 where
  pub types_of : l.types ≡ types
  pub size_of : l.chunk_size ≡ chunk_size
  pub columns_of : map described l.columns ≡ wanted has_column es
  pub components_of : map described l.chunk_components ≡ wanted is_chunk es

try_layout-Describes :
    (chunk_size : ℕ) (types : List ℕ) (es : List Entry) (capacity : ℕ)
    → Describes chunk_size types es (try_layout chunk_size types es capacity)
unfolding try_layout
try_layout-Describes s types es n = record {
  types_of = refl;
  size_of = refl;
  columns_of = place_columns-wanted n _ es;
  components_of = place_components-wanted _ es;
}

-- The first guess of the capacity.
abbrev pub first_guess : ℕ → ℕ → List Entry → ℕ
first_guess chunk_size type_count es =
    (chunk_size - fixed_guess type_count) / bytes_per_entity es % word

compute-cases :
    (registry : Infos) (mask : Mask) (chunk_size : ℕ) (es : List Entry) (l : Layout)
    → infos_of registry 0 (ComponentMask.types mask) ≡ some es
    → compute registry mask chunk_size ≡ ok l
    → Found chunk_size
        (ComponentMask.types mask)
        es
        (first_guess chunk_size (length (ComponentMask.types mask)) es)
        l
unfolding compute
compute-cases registry mask size es l known h =
    let types = ComponentMask.types mask in
    shrink-Found size types es (first_guess size (length types) es) l (ground (arith, h, known))

-- A layout that `Compute` returns has a column for exactly the components of the mask that have
-- one, and an area for exactly its chunk components, in the order of their slots, with the sizes and
-- defaults of the registry. It has the largest capacity, at least one and at most the first guess,
-- at which the parts fit the chunk, as long as the sizes of all parts add up below 2^32. The change
-- versions, the enable bits (enough for the capacity), the chunk components, the entities and the
-- columns follow each other without overlap; entities and columns start on cache lines; and all of
-- it lies inside the chunk.
pub compute-Parts :
    (registry : Infos) (mask : Mask) (chunk_size : ℕ) (es : List Entry) (l : Layout)
    → infos_of registry 0 (ComponentMask.types mask) ≡ some es
    → HasAligns es
    → compute registry mask chunk_size ≡ ok l
    → space (length (ComponentMask.types mask)) es l.capacity + 64 < word
    → Describes chunk_size (ComponentMask.types mask) es l
      × Parts l
      × (l.used_bytes ≤ chunk_size)
      × (0 < l.capacity)
      × (l.capacity ≤ first_guess chunk_size (length (ComponentMask.types mask)) es)
      × ((k : ℕ)
          → l.capacity < k
          → k ≤ first_guess chunk_size (length (ComponentMask.types mask)) es
          → chunk_size < (try_layout chunk_size (ComponentMask.types mask) es k).used_bytes)
compute-Parts registry mask size es l known aligns h small =
    let types = ComponentMask.types mask in
    let found = compute-cases registry mask size es l known h in
    (
      subst (Describes size types es) (sym found.laid_out)
          (try_layout-Describes size types es l.capacity),
      subst Parts (sym found.laid_out) (try_layout-Parts size types es l.capacity aligns small),
      found.inside,
      found.positive,
      found.below,
      found.largest,
    )

-- A layout that `Compute` returns has room for a row.
pub compute-positive :
    (registry : Infos) (mask : Mask) (chunk_size : ℕ) (l : Layout)
    → compute registry mask chunk_size ≡ ok l
    → 0 < l.capacity
unfolding compute
compute-positive registry mask size l h =
    elim (Option-cases (infos_of registry 0 (ComponentMask.types mask))) [
      | inl unknown ↦ absurd (ground (arith, h, unknown))
      | inr (es, known) ↦ (compute-cases registry mask size es l known h).positive
    ]
