-- ===== src/Ecs/ChunkLayout.antt =====
-- engine/oyi_ecs/src/oyi_ecs/ChunkLayout.cpp and its header: where the parts of a chunk lie. A column
-- carries the default that the registry has for its type. Offsets are 32-bit numbers.
pub mod Fits
mod Tests
use oyi_engine.Prelude.{
  ℕ, zero, suc, ◌+◌, ◌-◌, ◌*◌, ◌/◌, ◌%◌, ◌^◌, Bool, true, false, not, ◌&&◌, ◌||◌, Option, none,
  some, List, [], ◌∷◌, ltb, leb, ◌==◌, if◌then◌else◌, length, Expected, ok, fail, invalid_argument,
}
use oyi_engine.Ecs.ComponentMask
use oyi_engine.Ecs.ComponentMask.{Mask}
use oyi_engine.Ecs.ComponentRegistry.{Bytes, Info, Infos, is_tag, is_chunk, is_registered, get_info}

abbrev pub word : ℕ
word = 2 ^ 32

-- `ColumnLayout` and `ChunkComponentLayout`
pub record Column : Type 0 where
  pub type : ℕ
  pub slot : ℕ
  pub offset : ℕ
  pub size : ℕ
  pub default : Option Bytes

pub record Layout : Type 0 where
  pub types : List ℕ
  pub columns : List Column
  pub chunk_components : List Column
  pub chunk_size : ℕ
  pub capacity : ℕ
  pub version_offset : ℕ
  pub enable_offset : ℕ
  pub enable_words : ℕ
  pub entity_offset : ℕ
  pub used_bytes : ℕ

-- `AlignUp` of engine/oyi_core/include/oyi_core/Memory.h. The alignment is a power of two, for which
-- clearing the low bits is rounding down to a multiple.
unfoldable pub align_up : ℕ → ℕ → ℕ
align_up value alignment = (value + alignment - 1) % word / alignment * alignment

-- `kCacheLineSize`, and `sizeof(EntityId)`
abbrev pub cache_line : ℕ
cache_line = 64

abbrev pub entity_size : ℕ
entity_size = 8

-- `EnableWords`
unfoldable pub enable_words_of : ℕ → ℕ
enable_words_of capacity = (capacity + 63) % word / 64

-- Each type of the mask with its slot and info; `none` if a type is not registered.
unfoldable pub infos_of : Infos → ℕ → List ℕ → Option (List (ℕ × ℕ × Info))
infos_of infos slot [] = some []
infos_of infos slot (type ∷ types) =
    let rest = infos_of infos (slot + 1) types in
    elim (get_info infos type) [
      | none ↦ none
      | some info ↦ elim rest [ none ↦ none | some more ↦ some ((slot, type, info) ∷ more) ]
    ]

-- A type with a value per entity: neither a tag nor a chunk component.
abbrev pub has_column : Info → Bool
has_column info = not (is_tag info || is_chunk info)

-- `bytesPerEntity`, a 64-bit sum.
unfoldable pub bytes_per_entity : List (ℕ × ℕ × Info) → ℕ
bytes_per_entity [] = entity_size
bytes_per_entity ((slot, type, info) ∷ more) =
    let rest = bytes_per_entity more in if has_column info then info.size + rest else rest

abbrev pub column_at : ℕ × ℕ × Info → ℕ → Column
column_at (slot, type, info) offset = record {
  type = type;
  slot = slot;
  offset = offset;
  size = info.size;
  default = info.default;
}

-- The loop of `tryLayout` over the chunk components: what it appends, and the offset it ends at.
unfoldable pub place_components : ℕ → List (ℕ × ℕ × Info) → List Column × ℕ
unfolding align_up
place_components offset [] = ([], offset)
place_components offset ((slot, type, info) ∷ more) =
    let start = align_up offset info.align in
    let (placed, end) =
      place_components (if is_chunk info then (start + info.size) % word else offset) more in
    (if is_chunk info then column_at (slot, type, info) start ∷ placed else placed, end)

-- The loop of `tryLayout` over the columns.
unfoldable pub place_columns : ℕ → ℕ → List (ℕ × ℕ × Info) → List Column × ℕ
unfolding align_up
place_columns capacity offset [] = ([], offset)
place_columns capacity offset ((slot, type, info) ∷ more) =
    let start = align_up offset cache_line in
    let (placed, end) =
      place_columns capacity
        (if has_column info then (start + capacity * info.size) % word else offset) more in
    (if has_column info then column_at (slot, type, info) start ∷ placed else placed, end)

-- `tryLayout`: the layout for a candidate capacity; `used_bytes` is what the lambda returns.
unfoldable pub try_layout : ℕ → List ℕ → List (ℕ × ℕ × Info) → ℕ → Layout
unfolding align_up enable_words_of place_components place_columns
try_layout chunk_size types infos capacity =
    let enable = align_up (length types * 4 % word) 8 in
    let words = enable_words_of capacity in
    let (components, after) = place_components ((enable + length types * words * 8) % word) infos in
    let entities = align_up after cache_line in
    let (columns, end) =
      place_columns capacity ((entities + capacity * entity_size) % word) infos in
    record {
      types = types;
      columns = columns;
      chunk_components = components;
      chunk_size = chunk_size;
      capacity = capacity;
      version_offset = 0;
      enable_offset = enable;
      enable_words = words;
      entity_offset = entities;
      used_bytes = end;
    }

-- `while (capacity > 0 && tryLayout(capacity) > chunkSize) --capacity`, and the check behind it.
unfoldable pub shrink : ℕ → List ℕ → List (ℕ × ℕ × Info) → ℕ → Expected Layout
unfolding try_layout
shrink chunk_size types infos zero = fail invalid_argument
shrink chunk_size types infos (suc n) =
    let rest = shrink chunk_size types infos n in
    let layout = try_layout chunk_size types infos (suc n) in
    if leb layout.used_bytes chunk_size then ok layout else rest

-- `fixedGuess`
abbrev pub fixed_guess : ℕ → ℕ
fixed_guess type_count = type_count * 16 + (type_count + 2) * cache_line

-- `Compute`
unfoldable pub compute : Infos → Mask → ℕ → Expected Layout
unfolding infos_of bytes_per_entity shrink
compute registry mask chunk_size =
    let types = ComponentMask.types mask in
    elim (infos_of registry 0 types) [
      | none ↦ fail invalid_argument
      | some infos ↦
          if leb chunk_size (fixed_guess (length types))
          then fail invalid_argument
          else shrink chunk_size types infos
              ((chunk_size - fixed_guess (length types)) / bytes_per_entity infos % word)
    ]

-- `FindSlot`, `FindColumn` and `FindChunkComponent`
pub find_slot : List ℕ → ℕ → Option ℕ
find_slot [] type = none
find_slot (t ∷ types) type =
    let rest = find_slot types type in
    if t == type then some 0 else elim rest [ none ↦ none | some slot ↦ some (suc slot) ]

pub find_column : List Column → ℕ → Option Column
find_column [] type = none
find_column (c ∷ cs) type =
    let rest = find_column cs type in if c.type == type then some c else rest
