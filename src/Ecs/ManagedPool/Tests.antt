-- ===== src/Ecs/ManagedPool/Tests.antt =====
-- A pool with one object and one vacant slot.
use oyi_engine.Prelude.{
  ℕ, zero, suc, ◌≡◌, ◌≢◌, Bool, none, some, [], ◌∷◌, if◌then◌else◌, count, get_elem?, arith, ltb,
}
use oyi_engine.Core.Handle
use oyi_engine.Core.Handle.{Handle}
use oyi_engine.Ecs.ManagedPool.{Object, Slot, Pool, bound, adopt, destroy, resolve, collect_dead}
use oyi_engine.Ecs.ManagedPool.Refine.{
  IsValid, kept, vacant, resolve-adopt, resolve-destroy, resolve-collect_dead,
}

abbrev handle : ℕ → ℕ → Handle
handle i g = record { index = i; generation = g }

abbrev object : Object
object = record { owner = handle 7 1; id = handle 0 1; type_id = some 3; state = 5 ∷ [] }

abbrev pool : Pool
pool = record {
  slots =
      record { object = some object; generation = 1 }
      ∷ record { object = none; generation = 4 }
      ∷ [];
  free_indices = 1 ∷ [];
  live_count = 1;
}

pool-free : (i : ℕ) → count i pool.free_indices ≡ (if vacant (get_elem? pool.slots i) then 1 else 0)
pool-free zero = omega arith
pool-free (suc zero) = omega arith
pool-free (suc (suc i)) = ground arith

pool-generations : (i : ℕ) (slot : Slot) → get_elem? pool.slots i ≡ some slot → slot.generation ≢ 0
pool-generations zero slot e = ground arith
pool-generations (suc zero) slot e = ground arith
pool-generations (suc (suc i)) slot e = ground arith

pool-IsValid : IsValid pool
pool-IsValid = record { free = pool-free; generations = pool-generations }

resolve-adopt_example :
    (id : Handle) × (q : Pool) × (adopt pool object (handle 9 2) ≡ some (id, q))
    × IsValid q
    × (resolve pool id ≡ none)
    × ((f : Handle)
        → resolve q f
          ≡ (if Handle.equal id f then some (bound object (handle 9 2) id) else resolve pool f))
resolve-adopt_example = resolve-adopt pool object (handle 9 2) pool-IsValid (omega arith)

resolve-destroy_example :
    IsValid (destroy pool (handle 0 1))
    × ((f : Handle)
        → resolve (destroy pool (handle 0 1)) f
          ≡ (if Handle.equal (handle 0 1) f then none else resolve pool f))
resolve-destroy_example = resolve-destroy pool (handle 0 1) pool-IsValid

abbrev young : Handle → Bool
young h = ltb h.index 5

resolve-collect_dead_example :
    IsValid (collect_dead young pool).0
    × ((f : Handle) → resolve (collect_dead young pool).0 f ≡ kept young (resolve pool f))
resolve-collect_dead_example = resolve-collect_dead young pool pool-IsValid
