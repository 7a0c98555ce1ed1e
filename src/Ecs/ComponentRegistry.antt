-- ===== src/Ecs/ComponentRegistry.antt =====
-- engine/oyi_ecs/src/oyi_ecs/ComponentRegistry.cpp and its header, with the fields of `ComponentInfo`
-- (engine/oyi_core/include/oyi_core/Schema.h) that storage reads. The infos are constants of the
-- program, so that the array of pointers is a list of the infos.
pub mod Laws
mod Tests
use Prim.Native.Nat.{bit_and}
use oyi_engine.Prelude.{
  ℕ, zero, suc, Bool, Option, none, some, List, [], ◌∷◌, ◌++◌, ltb, ◌==◌, if◌then◌else◌, length,
  get_elem?, Expected, ok, fail, invalid_argument, already_exists, out_of_range,
}

abbrev pub Bytes : Type 0
Bytes = List ℕ

-- `ComponentInfo`; the default is the bytes of a value-initialized instance, if it has one.
pub record Info : Type 0 where
  pub type_id : ℕ
  pub size : ℕ
  pub align : ℕ
  pub flags : ℕ
  pub layout_hash : ℕ
  pub default : Option Bytes

-- `HasFlag` for `ComponentFlags::Tag`, `Chunk` and `Predicted`.
abbrev pub is_tag : Info → Bool
is_tag info = bit_and info.flags 1 == 1

abbrev pub is_chunk : Info → Bool
is_chunk info = bit_and info.flags 4 == 4

abbrev pub is_predicted : Info → Bool
is_predicted info = bit_and info.flags 8 == 8

-- `kMaxComponentTypes`
abbrev pub max_types : ℕ
max_types = 256

abbrev pub Infos : Type 0
Infos = List Info

-- `ComponentTypeIndex::IsValid`; `none` below is the invalid index.
abbrev pub is_valid : ℕ → Bool
is_valid type = ltb type max_types

-- `Find`
pub find : Infos → ℕ → Option ℕ
find [] type_id = none
find (info ∷ infos) type_id =
    let rest = find infos type_id in
    if info.type_id == type_id then some 0 else elim rest [ none ↦ none | some i ↦ some (suc i) ]

-- `IsRegistered` and `GetInfo`
abbrev pub is_registered : Infos → ℕ → Bool
is_registered infos type = ltb type (length infos)

abbrev pub get_info : Infos → ℕ → Option Info
get_info infos type = get_elem? infos type

-- The branch of `Register` in which the `TypeId` is known already.
same_layout : Infos → Info → ℕ → Expected (ℕ × Infos)
same_layout infos info i = elim (get_info infos i) [
  | none ↦ fail already_exists
  | some known ↦
      if known.layout_hash == info.layout_hash then ok (i, infos) else fail already_exists
]

-- `Register`
pub register : Infos → Info → Expected (ℕ × Infos)
unfolding find same_layout
register infos info =
    if info.type_id == 0 then fail invalid_argument else elim (find infos info.type_id) [
      | some i ↦ same_layout infos info i
      | none ↦
          if ltb (length infos) max_types
          then ok (length infos, infos ++ info ∷ [])
          else fail out_of_range
    ]
