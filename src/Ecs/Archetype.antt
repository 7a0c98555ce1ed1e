-- ===== src/Ecs/Archetype.antt =====
-- engine/oyi_ecs/src/oyi_ecs/Archetype.cpp and its header: the entities with one set of component
-- types, stored in chunks. The bytes of a chunk are seen through its layout: rows of an entity, a
-- value per column and an enable bit per slot; a version per slot; a value per chunk component.
-- What a chunk holds behind its last row is not modelled, since a row is written before it counts.
-- A chunk's memory comes from the allocator, whose answer is the argument `granted`.
-- `none` stands for a violated assertion.
pub mod Packed
pub mod Allocation
pub mod Removal
mod Tests
use oyi_engine.Prelude.{
  ℕ, zero, suc, ◌+◌, ◌-◌, ◌%◌, ◌^◌, Bool, true, false, not, ◌&&◌, ◌||◌, Option, none, some, List,
  [], ◌∷◌, ◌++◌, map, ltb, ◌==◌, if◌then◌else◌, length, get_elem?, set, replicate, Expected, ok,
  fail, out_of_memory,
}
use oyi_engine.Core.Handle
use oyi_engine.Core.Handle.{Handle}
use oyi_engine.Ecs.ComponentMask.{Mask}
use oyi_engine.Ecs.ComponentRegistry.{Bytes}
use oyi_engine.Ecs.ChunkLayout.{Column, Layout, find_column, find_slot}
use oyi_engine.Ecs.EntityRegistry.{Location, word}

pub record Row : Type 0 where
  pub entity : Handle
  pub cells : List Bytes
  pub enabled : List Bool

-- `Archetype::Chunk`; `mCount` is the number of rows.
pub record Chunk : Type 0 where
  pub versions : List ℕ
  pub chunk_cells : List Bytes
  pub rows : List Row

pub record Archetype : Type 0 where
  pub index : ℕ
  pub prototype : Bool
  pub mask : Mask
  pub layout : Layout
  pub chunks : List Chunk
  pub entity_count : ℕ

-- The initial value of a column or chunk component: the default, or zeros.
initial_cell : Column → Bytes
initial_cell c = elim c.default [ some value ↦ value | none ↦ replicate c.size 0 ]

-- `AllocateChunk` with memory granted.
pub new_chunk : Layout → ℕ → Chunk
unfolding initial_cell
new_chunk l version = record {
  versions = map (λ _. version) l.types;
  chunk_cells = map initial_cell l.chunk_components;
  rows = [];
}

-- `SetVersion` for the slot of each column in turn.
pub stamp_columns : List Column → ℕ → List ℕ → List ℕ
stamp_columns [] version versions = versions
stamp_columns (c ∷ cs) version versions = stamp_columns cs version (set versions c.slot version)

-- `InitializeRow` and the write of the entity: every column at its default and every slot enabled.
unfoldable pub new_row : Layout → Handle → Row
unfolding initial_cell
new_row l entity = record {
  entity = entity;
  cells = map initial_cell l.columns;
  enabled = map (λ _. true) l.types;
}

-- The last chunk and its index.
pub last_chunk : List Chunk → Option (ℕ × Chunk)
last_chunk [] = none
last_chunk (c ∷ []) = some (0, c)
last_chunk (c ∷ d ∷ cs) = elim (last_chunk (d ∷ cs)) [ none ↦ none | some (i, e) ↦ some (suc i, e) ]

-- `push_back` of a row into the chunk at `index`, with the versions of the columns stamped.
pub push_row : Archetype → ℕ → Chunk → Handle → ℕ → Location × Archetype
unfolding stamp_columns new_row
push_row a index c entity version = (
  record { archetype = a.index; chunk = index; row = length c.rows },
  record a {
    chunks = set a.chunks index (record c {
      versions = stamp_columns a.layout.columns version c.versions;
      rows = c.rows ++ new_row a.layout entity ∷ [];
    });
    entity_count = (a.entity_count + 1) % word;
  },
)

-- The branch of `Allocate` that needs a new chunk.
pub open_chunk : Archetype → Bool → Handle → ℕ → Expected (Location × Archetype)
unfolding new_chunk push_row
open_chunk a granted entity version =
    if granted
    then ok (
        push_row (record a { chunks = a.chunks ++ new_chunk a.layout version ∷ [] })
          (length a.chunks) (new_chunk a.layout version) entity version)
    else fail out_of_memory

-- `Allocate`
pub allocate : Archetype → Bool → Handle → ℕ → Expected (Location × Archetype)
unfolding last_chunk open_chunk
allocate a granted entity version = elim (last_chunk a.chunks) [
  | none ↦ open_chunk a granted entity version
  | some (index, c) ↦
      if length c.rows == a.layout.capacity
      then open_chunk a granted entity version
      else ok (push_row a index c entity version)
]

pub drop_last {ℓ} : {A : Type ℓ} → List A → List A
drop_last [] = []
drop_last (x ∷ []) = []
drop_last (x ∷ y ∷ xs) = x ∷ drop_last (y ∷ xs)

-- The row at a chunk and a row index.
unfoldable pub row_in : List Chunk → ℕ → ℕ → Option Row
row_in chunks chunk row = elim (get_elem? chunks chunk) [
  | none ↦ none
  | some c ↦ get_elem? c.rows row
]

-- The part of `Remove` that fills the hole: `CopyRow` of the last row, and the versions of every
-- slot of the hole's chunk.
pub fill_hole : List Chunk → ℕ → ℕ → Row → ℕ → List Chunk
fill_hole chunks chunk row last version = elim (get_elem? chunks chunk) [
  | none ↦ chunks
  | some c ↦ set chunks chunk (record {
    versions = map (λ _. version) c.versions;
    chunk_cells = c.chunk_cells;
    rows = set c.rows row last;
  })
]

-- `--mCount` of the last chunk, which `ReleaseLastChunk` gives back if it is empty now.
pub shrink_last : List Chunk → List Chunk
unfolding drop_last
shrink_last [] = []
shrink_last (c ∷ []) = if length c.rows == 1 then [] else record c { rows = drop_last c.rows } ∷ []
shrink_last (c ∷ d ∷ cs) = c ∷ shrink_last (d ∷ cs)

pub is_last : Location → ℕ → ℕ → Bool
is_last at chunk row = at.chunk == chunk && at.row == row

-- `Remove`: the entity that moved into the hole, or an invalid handle.
pub remove_from : Archetype → Location → ℕ → Option (ℕ × Chunk) → Option (Handle × Archetype)
unfolding row_in fill_hole shrink_last is_last
remove_from a at version none = none
remove_from a at version (some (index, c)) = elim (get_elem? c.rows (length c.rows - 1)) [
  | none ↦ none
  | some last ↦
      let count = (a.entity_count + word - 1) % word in
      if is_last at index (length c.rows - 1)
      then some (Handle.invalid, record a { chunks = shrink_last a.chunks; entity_count = count })
      else some (
        last.entity,
        record a {
          chunks = shrink_last (fill_hole a.chunks at.chunk at.row last version);
          entity_count = count;
        },
      )
]

pub remove : Archetype → Location → ℕ → Option (Handle × Archetype)
unfolding remove_from last_chunk
remove a at version = elim (row_in a.chunks at.chunk at.row) [
  | none ↦ none
  | some _ ↦
      if at.archetype == a.index then remove_from a at version (last_chunk a.chunks) else none
]

-- The cell of a type in a row, found through the column of the layout.
pub cell_in : List Column → List Bytes → ℕ → Option Bytes
cell_in [] cells type = none
cell_in (c ∷ cs) [] type = none
cell_in (c ∷ cs) (v ∷ cells) type =
    let rest = cell_in cs cells type in if c.type == type then some v else rest

-- The two loops of `CopySharedComponents`, over the columns and over the slots of the target.
shared_cells : Layout → Row → List Column → List Bytes → List Bytes
unfolding cell_in
shared_cells source from [] cells = cells
shared_cells source from (c ∷ cs) [] = []
shared_cells source from (c ∷ cs) (v ∷ cells) =
    elim (cell_in source.columns from.cells c.type) [ none ↦ v | some w ↦ w ]
    ∷ shared_cells source from cs cells

shared_enabled : Layout → Row → List ℕ → List Bool → List Bool
shared_enabled source from [] bits = bits
shared_enabled source from (type ∷ types) [] = []
shared_enabled source from (type ∷ types) (b ∷ bits) =
    elim (find_slot source.types type) [
      | none ↦ b
      | some slot ↦ elim (get_elem? from.enabled slot) [ none ↦ b | some e ↦ e ]
    ]
    ∷ shared_enabled source from types bits

shared_row : Layout → Row → Layout → Row → Row
unfolding shared_cells shared_enabled
shared_row source from target to = record to {
  cells = shared_cells source from target.columns to.cells;
  enabled = shared_enabled source from target.types to.enabled;
}

-- `CopySharedComponents` into the row of the archetype at `at`.
pub copy_shared : Archetype → Location → Layout → Row → Option Archetype
unfolding row_in shared_row
copy_shared a at source from = elim (get_elem? a.chunks at.chunk) [
  | none ↦ none
  | some c ↦ elim (get_elem? c.rows at.row) [
    | none ↦ none
    | some to ↦ some (record a {
      chunks =
          set a.chunks at.chunk
            (record c { rows = set c.rows at.row (shared_row source from a.layout to) });
    })
  ]
]
