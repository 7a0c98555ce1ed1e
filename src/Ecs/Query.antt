-- ===== src/Ecs/Query.antt =====
-- Query.cpp and its header: the archetypes that have all of one mask and none of another, found once
-- and kept while the world's list of archetypes grows.
mod Tests
use oyi_engine.Prelude.{
  ℕ, zero, suc, ◌+◌, ◌-◌, ◌%◌, ◌≤◌, ◌≡◌, refl, ap, ◌∙◌, Bool, true, false, not, ◌&&◌, List, [], ◌∷◌,
  ◌++◌, if◌then◌else◌, length, take, drop, arith, Option, some, none, get_elem?,
}
use oyi_engine.Ecs.ComponentMask
use oyi_engine.Ecs.ComponentMask.{Mask}
use oyi_engine.Ecs.Archetype.{Archetype}

pub record Query : Type 0 where
  pub all : Mask
  pub excluded : Mask
  pub matches : List ℕ
  pub archetypes_seen : ℕ

-- `Matches`
unfoldable pub matches_mask : Query → Mask → Bool
matches_mask q mask =
    ComponentMask.contains mask q.all && not (ComponentMask.intersects mask q.excluded)

-- The loop of `GetMatches`, from the archetype at `index` on.
unfoldable pub matching_from : Query → ℕ → List Archetype → List ℕ
matching_from q index [] = []
matching_from q index (a ∷ rest) =
    let later = matching_from q (suc index) rest in
    if not a.prototype && matches_mask q a.mask then index ∷ later else later

-- `GetMatches`: the query afterwards; its matches are the result.
unfoldable pub get_matches : Query → List Archetype → Query
unfolding matching_from
get_matches q archetypes = record q {
  matches = q.matches ++ matching_from q q.archetypes_seen (drop q.archetypes_seen archetypes);
  archetypes_seen = length archetypes;
}

-- `CountEntities`, over the matches.
sum_entities : List Archetype → List ℕ → ℕ
sum_entities archetypes [] = 0
sum_entities archetypes (i ∷ is') =
    elim (get_elem? archetypes i) [ none ↦ 0 | some a ↦ a.entity_count ]
    + sum_entities archetypes is'

pub count_entities : Query → List Archetype → ℕ
unfolding sum_entities
count_entities q archetypes = sum_entities archetypes (get_matches q archetypes).matches

matching_from-take :
    (q : Query) (n i : ℕ) (archetypes : List Archetype)
    → matching_from q i (take n archetypes) ++ matching_from q (i + n) (drop n archetypes)
      ≡ matching_from q i archetypes
unfolding matching_from
matching_from-take q zero i archetypes = ap (λ j. matching_from q j archetypes) (omega arith)
matching_from-take q (suc n) i [] = refl
matching_from-take q (suc n) i (a ∷ rest) =
    let shift : suc i + n ≡ i + suc n = omega arith in
    ground
      (arith, matching_from-take q n (suc i) rest, ap (λ j. matching_from q j (drop n rest)) shift)

-- If the matches of a query are those of the archetypes that it has seen, then after `GetMatches` they
-- are those that a scan of all archetypes finds, in ascending order, and the query has seen them all:
-- keeping the matches between frames changes no result.
pub get_matches_scan :
    (q : Query) (archetypes : List Archetype)
    → q.matches ≡ matching_from q 0 (take q.archetypes_seen archetypes)
    → ((get_matches q archetypes).matches ≡ matching_from q 0 archetypes)
      × ((get_matches q archetypes).archetypes_seen ≡ length archetypes)
unfolding get_matches
get_matches_scan q archetypes h = (
  ap (λ m. m ++ matching_from q q.archetypes_seen (drop q.archetypes_seen archetypes)) h
      ∙ ap
          (λ j.
            matching_from q 0 (take q.archetypes_seen archetypes)
            ++ matching_from q j (drop q.archetypes_seen archetypes))
          (omega arith)
      ∙ matching_from-take q q.archetypes_seen 0 archetypes,
  refl,
)
