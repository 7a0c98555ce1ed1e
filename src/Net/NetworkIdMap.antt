-- ===== src/Net/NetworkIdMap.antt =====
-- engine/oyi_net/src/oyi_net/NetworkId.cpp and its header: the two-way map between network ids and
-- entity handles. `std::ranges::lower_bound` gives the first position that is not less; on a range
-- that is not sorted it promises nothing, so the sortedness theorems are what entitles the code
-- to call it.
pub mod Invariant
pub mod Refine
mod Tests
use mathlib.Core.List.{List, [], ◌∷◌}
use oyi_engine.Prelude.{
  ℕ, zero, suc, ◌+◌, ◌-◌, ◌%◌, ◌^◌, max, Bool, true, false, not, ◌&&◌, ◌||◌, Option, none, some,
  ◌++◌, ltb, ◌==◌, if◌then◌else◌, get_elem?, Expected, ok, fail, invalid_argument, already_exists,
}
use oyi_engine.Core.Handle
use oyi_engine.Core.Handle.{Handle}

abbrev pub word : ℕ
word = 2 ^ 32

-- A `NetworkId` is its value; zero is never an id.
pub record Pair : Type 0 where
  pub id : ℕ
  pub entity : Handle

pub record IdMap : Type 0 where
  pub pairs : List Pair
  pub next_id : ℕ
  pub count : ℕ

-- `NetworkIdMap{}`
abbrev pub empty : IdMap
empty = record { pairs = []; next_id = 1; count = 0 }

-- `lower_bound(mPairs, id)` as an index.
pub lower_bound : ℕ → List Pair → ℕ
lower_bound id [] = 0
lower_bound id (p ∷ ps) = let rest = lower_bound id ps in if ltb p.id id then suc rest else 0

-- `mPairs.insert(at, pair)` and `mPairs.erase(at)`
pub insert_at : ℕ → Pair → List Pair → List Pair
insert_at zero q ps = q ∷ ps
insert_at (suc i) q [] = q ∷ []
insert_at (suc i) q (p ∷ ps) = p ∷ insert_at i q ps

pub erase_at : ℕ → List Pair → List Pair
erase_at i [] = []
erase_at zero (p ∷ ps) = ps
erase_at (suc i) (p ∷ ps) = p ∷ erase_at i ps

entity_if : ℕ → Option Pair → Handle
entity_if id none = Handle.invalid
entity_if id (some p) = if p.id == id then p.entity else Handle.invalid

pub resolve_in : List Pair → ℕ → Handle
unfolding lower_bound entity_if
resolve_in ps id = entity_if id (get_elem? ps (lower_bound id ps))

-- `Resolve`
pub resolve : IdMap → ℕ → Handle
unfolding resolve_in
resolve m id = resolve_in m.pairs id

pub find_in : List Pair → Handle → ℕ
find_in [] e = 0
find_in (p ∷ ps) e = if Handle.equal p.entity e then p.id else find_in ps e

-- `Find`
pub find : IdMap → Handle → ℕ
unfolding find_in
find m e = find_in m.pairs e

-- `Assign`
pub assign : IdMap → Handle → Expected (ℕ × IdMap)
unfolding find
assign m e =
    if not (find m e == 0)
    then fail already_exists
    else ok (
      m.next_id,
      record {
        pairs = m.pairs ++ record { id = m.next_id; entity = e } ∷ [];
        next_id = (m.next_id + 1) % word;
        count = (m.count + 1) % word;
      },
    )

-- `Bind`
pub bind : IdMap → ℕ → Handle → Expected IdMap
unfolding resolve find lower_bound insert_at
bind m id e =
    if id == 0
    then fail invalid_argument
    else if Handle.is_valid (resolve m id) || not (find m e == 0)
    then fail already_exists
    else ok (record {
      pairs = insert_at (lower_bound id m.pairs) (record { id = id; entity = e }) m.pairs;
      next_id = max m.next_id ((id + 1) % word);
      count = (m.count + 1) % word;
    })

pub is_id : ℕ → Option Pair → Bool
is_id id none = false
is_id id (some p) = p.id == id

-- `Release`
pub release : IdMap → ℕ → IdMap
unfolding lower_bound is_id erase_at
release m id =
    let at = lower_bound id m.pairs in
    if is_id id (get_elem? m.pairs at)
    then record m { pairs = erase_at at m.pairs; count = (m.count + word - 1) % word }
    else m
