-- ===== src/Ecs/Archetype/Allocation.antt =====
-- Archetype.cpp: what `Allocate` does to the rows, seen by place.
use oyi_engine.Prelude.{ℕ, ◌+◌, ◌≡◌, ◌&&◌, none, some, [], ◌∷◌, ◌++◌, ◌==◌, if◌then◌else◌}
use oyi_engine.Core.Handle.{Handle}
use oyi_engine.Ecs.EntityRegistry.{Location}
use oyi_engine.Ecs.ChunkLayout.{Layout}
use oyi_engine.Ecs.Archetype.{Chunk, Archetype, stamp_columns, new_row, row_in}
use oyi_engine.Ecs.Archetype.Packed.{Packed, IsPacked}

-- What `Allocate` makes of the chunk list: at a place that held no row there is a new one, and all
-- other rows stand where they stood.
pub record Adds (a : Archetype) (e : Handle) (at : Location) (b : Archetype) : Type 0 where
  pub same_index : b.index ≡ a.index
  pub same_prototype : b.prototype ≡ a.prototype
  pub same_mask : b.mask ≡ a.mask
  pub same_layout : b.layout ≡ a.layout
  pub packed : IsPacked b
  pub count : b.entity_count ≡ a.entity_count + 1
  pub here : at.archetype ≡ a.index
  pub was_free : row_in a.chunks at.chunk at.row ≡ none
  pub rows :
      (i j : ℕ)
      → row_in b.chunks i j
        ≡ (if at.chunk == i && at.row == j then some (new_row a.layout e) else row_in a.chunks i j)

-- The chunk with a row pushed.
grown : Layout → Chunk → Handle → ℕ → Chunk
grown l c e version = record c {
  versions = stamp_columns l.columns version c.versions;
  rows = c.rows ++ new_row l e ∷ [];
}
