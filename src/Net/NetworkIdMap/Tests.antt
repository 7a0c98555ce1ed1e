-- ===== src/Net/NetworkIdMap/Tests.antt =====
-- Concrete runs of the id map.
use oyi_engine.Prelude.{
  ℕ, ◌-◌, ◌<◌, ◌≡◌, refl, ◌≢◌, ◌↔◌, ◌⊎◌, true, [], ◌∷◌, ◌==◌, if◌then◌else◌, ok, fail,
  invalid_argument, already_exists, arith,
}
use oyi_engine.Core.Handle
use oyi_engine.Core.Handle.{Handle}
use oyi_engine.Net.NetworkIdMap.{
  IdMap, empty, word, lower_bound, insert_at, resolve, resolve_in, entity_if, find, find_in, assign,
  bind, release,
}
use oyi_engine.Net.NetworkIdMap.Invariant.{IsValid}
use oyi_engine.Net.NetworkIdMap.Refine.{
  Binds, resolve_iff_find, assign_refines, bind_refines, release_refines, assign-after_last_id,
}

abbrev door : Handle
door = record { index = 3; generation = 1 }

abbrev player : Handle
player = record { index = 4; generation = 2 }

-- Ids 2 and 5 are bound.
abbrev known : IdMap
known = record {
  pairs = record { id = 2; entity = door } ∷ record { id = 5; entity = player } ∷ [];
  next_id = 6;
  count = 2;
}

known-IsValid : IsValid known
unfolding find_in
known-IsValid = record {
  sorted = (omega arith, (omega arith, tt));
  below = (omega arith, (omega arith, tt));
  entities = (refl, (refl, tt));
  distinct = (refl, (refl, tt));
  counted = refl;
  next_pos = omega arith;
  next_word = omega arith;
}

resolve_iff_find_example : (find known player ≡ 5) ↔ (resolve known 5 ≡ player)
resolve_iff_find_example = resolve_iff_find known 5 player known-IsValid refl (omega arith)

assign_refines_example :
    ((find known player ≢ 0) × (assign known player ≡ fail already_exists))
    ⊎ ((n : IdMap) × (assign known player ≡ ok (6, n))
        × (find known player ≡ 0)
        × Binds known 6 player n)
assign_refines_example = assign_refines known player known-IsValid refl (omega arith)

abbrev free_id : ℕ
free_id = 4

bind_refines_example :
    ((free_id ≡ 0) × (bind known free_id player ≡ fail invalid_argument))
    ⊎ ((free_id ≢ 0)
        × ((Handle.is_valid (resolve known free_id) ≡ true) ⊎ (find known player ≢ 0))
        × (bind known free_id player ≡ fail already_exists))
    ⊎ ((n : IdMap) × (bind known free_id player ≡ ok n)
        × (free_id ≢ 0)
        × (free_id < n.next_id)
        × Binds known free_id player n)
bind_refines_example = bind_refines known free_id player known-IsValid refl (omega arith)

release_refines_example :
    IsValid (release known 2)
    × ((release known 2).next_id ≡ known.next_id)
    × ((resolve known 2 ≡ Handle.invalid) ⊎ (2 < (release known 2).next_id))
    × ((j : ℕ) → resolve (release known 2) j ≡ (if j == 2 then Handle.invalid else resolve known j))
release_refines_example = release_refines known 2 known-IsValid

empty-IsValid : IsValid empty
empty-IsValid = record {
  sorted = tt;
  below = tt;
  entities = tt;
  distinct = tt;
  counted = refl;
  next_pos = omega arith;
  next_word = omega arith;
}

-- The map after the last id is bound, and after one more id is assigned.
abbrev last_bound : IdMap
last_bound = record {
  pairs = record { id = 0xffff_ffff; entity = door } ∷ [];
  next_id = 1;
  count = 1;
}

abbrev misplaced : IdMap
misplaced = record {
  pairs = record { id = 0xffff_ffff; entity = door } ∷ record { id = 1; entity = player } ∷ [];
  next_id = 2;
  count = 2;
}

bind-last : bind empty (word - 1) door ≡ ok last_bound
unfolding bind resolve resolve_in find find_in lower_bound insert_at entity_if
bind-last = refl

assign-last_bound : assign last_bound player ≡ ok (1, misplaced)
unfolding assign find find_in
assign-last_bound = refl

abbrev reused_id : ℕ
reused_id = 1

assign-after_last_id_example :
    (reused_id ≡ empty.next_id) × (resolve misplaced reused_id ≡ Handle.invalid)
assign-after_last_id_example =
    assign-after_last_id empty last_bound misplaced door player reused_id empty-IsValid
      (omega arith) bind-last assign-last_bound
