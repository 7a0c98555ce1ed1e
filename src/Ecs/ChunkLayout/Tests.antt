-- ===== src/Ecs/ChunkLayout/Tests.antt =====
-- Concrete layouts.
use oyi_engine.Prelude.{ℕ, ◌<◌, ◌≤◌, ◌≡◌, refl, none, some, List, [], ◌∷◌, length, ok, arith}
use oyi_engine.Ecs.ComponentMask
use oyi_engine.Ecs.ComponentMask.{Mask}
use oyi_engine.Ecs.ComponentRegistry.{Info, Infos}
use oyi_engine.Ecs.ChunkLayout.{
  Layout, align_up, enable_words_of, infos_of, bytes_per_entity, place_components, place_columns,
  try_layout, shrink, compute,
}
use oyi_engine.Ecs.ChunkLayout.Fits.{Entry, Parts, Describes, first_guess, compute-Parts}

abbrev health : Info
health = record { type_id = 11; size = 12; align = 4; flags = 0; layout_hash = 5; default = none }

-- A tag.
abbrev enemy : Info
enemy = record { type_id = 12; size = 1; align = 1; flags = 1; layout_hash = 6; default = none }

abbrev registry : Infos
registry = health ∷ enemy ∷ []

-- Types 0 and 1.
abbrev mask : Mask
mask = 3 ∷ 0 ∷ 0 ∷ 0 ∷ []

abbrev entries : List Entry
entries = (0, 0, health) ∷ (1, 1, enemy) ∷ []

abbrev layout : Layout
layout = record {
  types = 0 ∷ 1 ∷ [];
  columns = record { type = 0; slot = 0; offset = 192; size = 12; default = none } ∷ [];
  chunk_components = [];
  chunk_size = 512;
  capacity = 11;
  version_offset = 0;
  enable_offset = 8;
  enable_words = 1;
  entity_offset = 64;
  used_bytes = 324;
}

known : infos_of registry 0 (ComponentMask.types mask) ≡ some entries
unfolding infos_of ComponentMask.types
known = refl

computed : compute registry mask 512 ≡ ok layout
unfolding compute infos_of bytes_per_entity shrink try_layout align_up enable_words_of
    place_components place_columns ComponentMask.types
computed = refl

compute-Parts_example :
    Describes 512 (ComponentMask.types mask) entries layout
    × Parts layout
    × (layout.used_bytes ≤ 512)
    × (0 < layout.capacity)
    × (layout.capacity ≤ first_guess 512 (length (ComponentMask.types mask)) entries)
    × ((k : ℕ)
        → layout.capacity < k
        → k ≤ first_guess 512 (length (ComponentMask.types mask)) entries
        → 512 < (try_layout 512 (ComponentMask.types mask) entries k).used_bytes)
unfolding ComponentMask.types enable_words_of
compute-Parts_example =
    compute-Parts registry mask 512 entries layout known (omega arith, (omega arith, tt)) computed
      (omega arith)
