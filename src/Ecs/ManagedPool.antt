-- ===== src/Ecs/ManagedPool.antt =====
-- Managed.cpp and ManagedObject.h, `ManagedPool`: the objects that entities own, behind handles with
-- generations. Only what the pool and the command replay read of an object is modelled. The head of
-- `free_indices` is the back of the vector.
pub mod Refine
mod Tests
use oyi_engine.Prelude.{
  ℕ, zero, suc, ◌+◌, ◌-◌, ◌%◌, ◌^◌, Bool, true, false, not, ◌&&◌, ◌||◌, Option, none, some, List,
  [], ◌∷◌, ◌++◌, ◌==◌, if◌then◌else◌, leb, length, get_elem?, set, replicate, Expected, ok, fail,
  invalid_argument, already_exists,
}
use oyi_engine.Core.Handle
use oyi_engine.Core.Handle.{Handle}
use oyi_engine.Ecs.ComponentRegistry.{Bytes}
use oyi_engine.Ecs.EntityRegistry.{word, next_generation}

-- `ManagedObject`; `type_id` is that of its `ManagedTypeInfo`, and `none` for an untyped object.
pub record Object : Type 0 where
  pub owner : Handle
  pub id : Handle
  pub type_id : Option ℕ
  pub state : Bytes

pub record Slot : Type 0 where
  pub object : Option Object
  pub generation : ℕ

pub record Pool : Type 0 where
  pub slots : List Slot
  pub free_indices : List ℕ
  pub live_count : ℕ

abbrev pub new_slot : Slot
new_slot = record { object = none; generation = 1 }

-- The object bound to its owner and its id.
abbrev pub bound : Object → Handle → Handle → Object
bound object owner id = record object { owner = owner; id = id }

-- The second half of `Adopt`, at the slot that was found.
unfoldable pub adopt_at : Pool → ℕ → Object → Handle → Option Slot → Option (Handle × Pool)
adopt_at p index object owner none = none
adopt_at p index object owner (some slot) =
    let id : Handle = record { index = index; generation = slot.generation } in
    some (
      id,
      record p {
        slots = set p.slots index (record slot { object = some (bound object owner id) });
        live_count = (p.live_count + 1) % word;
      },
    )

-- `Adopt`: a recycled index, or a new slot at the end.
unfoldable pub adopt : Pool → Object → Handle → Option (Handle × Pool)
unfolding adopt_at
adopt p object owner = elim p.free_indices [
  | index ∷ rest ↦
      adopt_at (record p { free_indices = rest }) index object owner (get_elem? p.slots index)
  | [] ↦
      let index = length p.slots % word in
      let slots = p.slots ++ new_slot ∷ [] in
      adopt_at (record p { slots = slots }) index object owner (get_elem? slots index)
]

-- `Release` of a slot, followed by the push of its index, as `Destroy` and `CollectDead` do.
unfoldable pub release : Pool → ℕ → Slot → Pool
release p index slot = record {
  slots =
      set p.slots index (record { object = none; generation = next_generation slot.generation });
  free_indices = index ∷ p.free_indices;
  live_count = (p.live_count + word - 1) % word;
}

-- `Resolve`
unfoldable pub resolve : Pool → Handle → Option Object
resolve p id = elim (get_elem? p.slots id.index) [
  | none ↦ none
  | some slot ↦ if Handle.is_valid id && slot.generation == id.generation then slot.object else none
]

-- `Destroy`
unfoldable pub destroy : Pool → Handle → Pool
unfolding release resolve
destroy p id = elim (resolve p id) [
  | none ↦ p
  | some object ↦ elim (get_elem? p.slots id.index) [
    | none ↦ p
    | some slot ↦ release p id.index slot
  ]
]

-- `FindByOwner`
owned_by : Handle → ℕ → Object → Bool
owned_by owner type o =
    Handle.equal o.owner owner && elim o.type_id [ none ↦ false | some t ↦ t == type ]

find_in : List Slot → Handle → ℕ → Option Object
unfolding owned_by
find_in [] owner type = none
find_in (s ∷ ss) owner type =
    let rest = find_in ss owner type in
    elim s.object [ none ↦ rest | some o ↦ if owned_by owner type o then some o else rest ]

pub find_by_owner : Pool → Handle → ℕ → Option Object
unfolding find_in
find_by_owner p owner type = find_in p.slots owner type

-- `CollectDead`; `alive` is the world's test. The number of slots left counts down.
unfoldable pub collect_slot : (Handle → Bool) → Pool → ℕ → Option Slot → Pool × ℕ
unfolding release
collect_slot alive p index none = (p, 0)
collect_slot alive p index (some slot) = elim slot.object [
  | none ↦ (p, 0)
  | some o ↦ if alive o.owner then (p, 0) else (release p index slot, 1)
]

unfoldable pub collect_from : (Handle → Bool) → ℕ → ℕ → Pool → Pool × ℕ
collect_from alive index zero p = (p, 0)
collect_from alive index (suc n) p =
    let (q, k) = collect_slot alive p index (get_elem? p.slots index) in
    let (r, m) = collect_from alive (suc index) n q in (r, k + m)

unfoldable pub collect_dead : (Handle → Bool) → Pool → Pool × ℕ
unfolding collect_from collect_slot
collect_dead alive p = collect_from alive 0 (length p.slots) p

-- The indices of the slots that `Restore` adds before its own.
count_up : ℕ → ℕ → List ℕ → List ℕ
count_up first zero free = free
count_up first (suc n) free = count_up (suc first) n (first ∷ free)

erase : ℕ → List ℕ → List ℕ
erase index [] = []
erase index (i ∷ is') = let rest = erase index is' in if i == index then rest else i ∷ rest

-- The end of `Restore`: the slot at the id's index takes the object.
restore_at : Pool → Handle → Object → Handle → Pool
restore_at p id object owner = record p {
  slots =
      set p.slots id.index
        (record { object = some (bound object owner id); generation = id.generation });
  live_count = (p.live_count + 1) % word;
}

-- `Restore` of an object that is not `nullptr`.
pub restore : Pool → Handle → Object → Handle → Expected (Unit {0}) × Pool
unfolding count_up erase restore_at
restore p id object owner =
    if not (Handle.is_valid id)
    then (fail invalid_argument, p)
    else elim (get_elem? p.slots id.index) [
      | none ↦
          let first = length p.slots in
          let grown = record p {
            slots = p.slots ++ replicate (id.index + 1 - first) new_slot;
            free_indices = count_up first (id.index - first) p.free_indices;
          } in
          (ok tt, restore_at grown id object owner)
      | some slot ↦ elim slot.object [
        | some o ↦ (fail already_exists, p)
        | none ↦ (
          ok tt,
          restore_at (record p { free_indices = erase id.index p.free_indices }) id object owner,
        )
      ]
    ]

-- `Clear`: the objects go, and the generations with the slots.
pub clear : Pool → Pool
clear p = record { slots = []; free_indices = []; live_count = 0 }
