-- ===== src/Ecs/Archetype/Tests.antt =====
-- Concrete runs of an archetype with one component type and room for two rows in a chunk.
use oyi_engine.Prelude.{ℕ, ◌≡◌, refl, true, false, some, [], ◌∷◌, arith}
use oyi_engine.Core.Handle.{Handle}
use oyi_engine.Ecs.EntityRegistry.{Location}
use oyi_engine.Ecs.ChunkLayout.{Column, Layout}
use oyi_engine.Ecs.Archetype.{Row, Archetype, remove, row_in}
use oyi_engine.Ecs.Archetype.Packed.{IsPacked}
use oyi_engine.Ecs.Archetype.Removal.{Removes, remove_refines}

abbrev column : Column
column = record { type = 0; slot = 0; offset = 128; size = 2; default = some (9 ∷ 9 ∷ []) }

abbrev layout : Layout
layout = record {
  types = 0 ∷ [];
  columns = column ∷ [];
  chunk_components = [];
  chunk_size = 256;
  capacity = 2;
  version_offset = 0;
  enable_offset = 8;
  enable_words = 1;
  entity_offset = 64;
  used_bytes = 132;
}

abbrev row : ℕ → Row
row i = record {
  entity = record { index = i; generation = 1 };
  cells = (i ∷ 0 ∷ []) ∷ [];
  enabled = true ∷ [];
}

-- Three rows in two chunks.
abbrev three : Archetype
three = record {
  index = 4;
  prototype = false;
  mask = 1 ∷ 0 ∷ 0 ∷ 0 ∷ [];
  layout = layout;
  chunks =
      record { versions = 1 ∷ []; chunk_cells = []; rows = row 0 ∷ row 1 ∷ [] }
      ∷ record { versions = 1 ∷ []; chunk_cells = []; rows = row 2 ∷ [] }
      ∷ [];
  entity_count = 3;
}

three-IsPacked : IsPacked three
three-IsPacked = record {
  packed = (refl, (omega arith, omega arith));
  capacity = omega arith;
  counted = refl;
  small = omega arith;
}

abbrev fresh : Handle
fresh = record { index = 3; generation = 1 }

abbrev hole : Location
hole = record { archetype = 4; chunk = 0; row = 0 }

remove_refines_example :
    (moved : Handle) × (b : Archetype) × (remove three hole 2 ≡ some (moved, b))
    × Removes three hole moved b
unfolding row_in
remove_refines_example = remove_refines three hole 2 (row 0) three-IsPacked refl refl
