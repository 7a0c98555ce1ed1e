-- ===== src/Ecs/Query/Tests.antt =====
-- A query that has seen one of two archetypes.
use oyi_engine.Prelude.{ℕ, ◌≡◌, refl, false, List, [], ◌∷◌, length}
use oyi_engine.Ecs.ComponentMask
use oyi_engine.Ecs.ComponentMask.{Mask}
use oyi_engine.Ecs.ChunkLayout.{Layout}
use oyi_engine.Ecs.Archetype.{Archetype}
use oyi_engine.Ecs.Query.{Query, matches_mask, matching_from, get_matches, get_matches_scan}

abbrev layout : Layout
layout = record {
  types = [];
  columns = [];
  chunk_components = [];
  chunk_size = 256;
  capacity = 2;
  version_offset = 0;
  enable_offset = 8;
  enable_words = 1;
  entity_offset = 64;
  used_bytes = 130;
}

abbrev archetype : ℕ → Mask → Archetype
archetype index mask = record {
  index = index;
  prototype = false;
  mask = mask;
  layout = layout;
  chunks = [];
  entity_count = 0;
}

abbrev archetypes : List Archetype
archetypes =
    archetype 0 (3 ∷ 0 ∷ 0 ∷ 0 ∷ [])
    ∷ archetype 1 (4 ∷ 0 ∷ 0 ∷ 0 ∷ [])
    ∷ archetype 2 (5 ∷ 0 ∷ 0 ∷ 0 ∷ [])
    ∷ []

abbrev query : Query
query = record {
  all = 1 ∷ 0 ∷ 0 ∷ 0 ∷ [];
  excluded = ComponentMask.empty;
  matches = 0 ∷ [];
  archetypes_seen = 1;
}

get_matches_two : (get_matches query archetypes).matches ≡ 0 ∷ 2 ∷ []
unfolding get_matches matching_from matches_mask ComponentMask.contains ComponentMask.intersects
get_matches_two = refl

get_matches_scan_example :
    ((get_matches query archetypes).matches ≡ matching_from query 0 archetypes)
    × ((get_matches query archetypes).archetypes_seen ≡ length archetypes)
unfolding matching_from matches_mask ComponentMask.contains ComponentMask.intersects
get_matches_scan_example = get_matches_scan query archetypes refl
