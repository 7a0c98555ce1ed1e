-- ===== src/Ecs/ComponentRegistry/Tests.antt =====
-- Concrete runs of the component registry.
use oyi_engine.Prelude.{
  ℕ, zero, suc, ◌≡◌, refl, ◌≢◌, ◌⊎◌, none, some, [], ◌∷◌, ◌==◌, if◌then◌else◌, length, get_elem?,
  ok, fail, invalid_argument, already_exists, out_of_range, arith,
}
use oyi_engine.Ecs.ComponentRegistry.{Info, Infos, max_types, find, register}
use oyi_engine.Ecs.ComponentRegistry.Laws.{IsValid, register_refines}

abbrev pub health : Info
health = record { type_id = 11; size = 4; align = 4; flags = 0; layout_hash = 5; default = none }

abbrev pub enemy : Info
enemy = record { type_id = 12; size = 1; align = 1; flags = 1; layout_hash = 6; default = none }

abbrev one : Infos
one = health ∷ []

one-IsValid : IsValid one
unfolding find
one-IsValid = record {
  few = omega arith;
  found = λ i info h.
      elim i
          as (λ j.
            get_elem? one j ≡ some info → (find one info.type_id ≡ some j) × (info.type_id ≢ 0)) [
              | zero ↦ λ e. ground (arith, e)
              | suc j ↦ λ e. cc
            ]
        h;
}

find-one : find (health ∷ enemy ∷ []) 12 ≡ some 1
unfolding find
find-one = refl

register_refines_example :
    ((enemy.type_id ≡ 0) × (register one enemy ≡ fail invalid_argument))
    ⊎ ((i : ℕ) × (known : Info) × (find one enemy.type_id ≡ some i)
        × (get_elem? one i ≡ some known)
        × (((known.layout_hash ≡ enemy.layout_hash) × (register one enemy ≡ ok (i, one)))
            ⊎ ((known.layout_hash ≢ enemy.layout_hash)
                × (register one enemy ≡ fail already_exists))))
    ⊎ ((find one enemy.type_id ≡ none)
        × (length one ≡ max_types)
        × (register one enemy ≡ fail out_of_range))
    ⊎ ((after : Infos) × (register one enemy ≡ ok (length one, after))
        × IsValid after
        × (get_elem? after (length one) ≡ some enemy)
        × ((type_id : ℕ)
            → find after type_id
              ≡ (if enemy.type_id == type_id then some (length one) else find one type_id)))
register_refines_example = register_refines one enemy one-IsValid
