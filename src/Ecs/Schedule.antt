-- ===== src/Ecs/Schedule.antt =====
-- Schedule.cpp: the systems of a world, their registration and the conflicts between them. The order
-- of the systems is derived in `Sort` and `Build`. A schedule has fewer than 2^32 systems and order
-- edges, so the casts of sizes to `uint32_t` change nothing.
pub mod Sort
pub mod Build
pub mod Registration
mod Tests
use Prim.Native.Nat.{bit_and}
use oyi_engine.Prelude.{
  ℕ, zero, suc, ◌+◌, ◌-◌, ◌%◌, ◌^◌, ◌≡◌, Bool, true, false, not, ◌&&◌, ◌||◌, Option, none, some,
  List, [], ◌∷◌, ◌++◌, ◌==◌, if◌then◌else◌, ltb, leb, length, get_elem?, get_or, set, replicate,
  Expected, ok, fail, invalid_argument, invalid_state,
}
use oyi_engine.Ecs.ComponentMask
use oyi_engine.Ecs.ComponentMask.{Mask}

-- `SystemDesc`: a name's bytes, a phase's number, the masks, and the function's address (0 is
-- `nullptr`). The masks of messages and the data handed to the function play no part in the order.
pub record SystemDesc : Type 0 where
  pub name : List ℕ
  pub phase : ℕ
  pub read : Mask
  pub write : Mask
  pub exclude : Mask
  pub optional : Mask
  pub read_resources : Mask
  pub write_resources : Mask
  pub function : ℕ

-- `kPhaseCount`, and `Phase::Presentation`, the first phase that may be downclocked
abbrev pub phase_count : ℕ
phase_count = 8

abbrev pub presentation : ℕ
presentation = 6

-- `SystemRecord`, with the counters that decide whether a run is its turn.
pub record System : Type 0 where
  pub desc : SystemDesc
  pub kinds : ℕ
  pub rate_divisor : ℕ
  pub frames : ℕ
  pub ran_this_phase : Bool
  pub predecessors : List ℕ
  pub last_version : ℕ
  pub run_version : ℕ

-- A relation on system numbers: the table `mReach`, row and column as arguments.
abbrev pub Reach : Type 0
Reach = ℕ → ℕ → Bool

-- `Schedule`; `order_index` is the column of the records' `mOrderIndex`.
pub record Schedule : Type 0 where
  pub systems : List System
  pub order : List (List ℕ)
  pub order_index : List ℕ
  pub built : Bool
  pub last_conflict : ℕ × ℕ
  pub reach : Reach

-- `SystemId::Invalid`
abbrev pub invalid_system : ℕ
invalid_system = 2 ^ 32 - 1

unfoldable pub empty_schedule : Schedule
empty_schedule = record {
  systems = [];
  order = replicate phase_count [];
  order_index = [];
  built = false;
  last_conflict = (invalid_system, invalid_system);
  reach = λ a b. false;
}

-- `Touched`: `ForEach` over a mask, one `Set` or `Clear` for each of its types.
set_all : List ℕ → Mask → Mask
set_all [] m = m
set_all (t ∷ ts) m = set_all ts (ComponentMask.insert m t)

clear_all : List ℕ → Mask → Mask
clear_all [] m = m
clear_all (t ∷ ts) m = clear_all ts (ComponentMask.erase m t)

unfoldable pub touched : SystemDesc → Mask
unfolding set_all clear_all
touched d =
    clear_all (ComponentMask.types d.optional) (set_all (ComponentMask.types d.write) d.read)

unfoldable pub conflicts : SystemDesc → SystemDesc → Bool
conflicts a b =
    ComponentMask.intersects a.write b.write
    || ComponentMask.intersects a.write b.read
    || ComponentMask.intersects b.write a.read
    || ComponentMask.intersects a.write_resources b.write_resources
    || ComponentMask.intersects a.write_resources b.read_resources
    || ComponentMask.intersects b.write_resources a.read_resources

unfoldable pub conflicts_automatically : SystemDesc → SystemDesc → Mask → Bool
conflicts_automatically a b automatic =
    let a_writes = ComponentMask.both a.write_resources automatic in
    let b_writes = ComponentMask.both b.write_resources automatic in
    ComponentMask.intersects a_writes b.write_resources
    || ComponentMask.intersects a_writes b.read_resources
    || ComponentMask.intersects b_writes a.read_resources

-- The constructor of `SystemRecord` and the assignment of `mKinds`.
unfoldable pub new_system : SystemDesc → ℕ → System
new_system desc kinds = record {
  desc = desc;
  kinds = kinds;
  rate_divisor = 1;
  frames = 0;
  ran_this_phase = false;
  predecessors = [];
  last_version = 0;
  run_version = 0;
}

is_empty {ℓ} : {A : Type ℓ} → List A → Bool
is_empty [] = true
is_empty (x ∷ xs) = false

-- `AddSystem`; the allocation of the record succeeds.
unfoldable pub add_system : Schedule → SystemDesc → ℕ → Expected ℕ × Schedule
unfolding is_empty
add_system s desc kinds =
    if s.built
    then (fail invalid_state, s)
    else if is_empty desc.name || desc.function == 0
    then (fail invalid_argument, s)
    else if leb phase_count desc.phase
    then (fail invalid_argument, s)
    else (
      ok (length s.systems),
      record s {
        systems = s.systems ++ new_system desc kinds ∷ [];
        order_index = s.order_index ++ 0 ∷ [];
      },
    )

-- `SetRateDivisor`
unfoldable pub set_rate_divisor : Schedule → ℕ → ℕ → Expected (Unit {0}) × Schedule
set_rate_divisor s system divisor = elim (get_elem? s.systems system) [
  | none ↦ (fail invalid_argument, s)
  | some r ↦
      if divisor == 0
      then (fail invalid_argument, s)
      else if ltb r.desc.phase presentation
      then (fail invalid_argument, s)
      else (
        ok tt,
        record s { systems = set s.systems system (record r { rate_divisor = divisor }) },
      )
]

-- `GetRateDivisor` and `IsSystemIncluded`; `kind` is the world's. An unknown system is an assertion
-- failure in the source; here it is `none`, and not included.
unfoldable pub get_rate_divisor : Schedule → ℕ → Option ℕ
get_rate_divisor s system = elim (get_elem? s.systems system) [
  | none ↦ none
  | some r ↦ some r.rate_divisor
]

unfoldable pub included : ℕ → List System → ℕ → Bool
included kind systems system = elim (get_elem? systems system) [
  | none ↦ false
  | some r ↦ not (bit_and r.kinds (2 ^ kind) == 0)
]

-- `mSystems[s]->mPredecessors` and `mSystems[s]->mDesc.mPhase == phase`
unfoldable pub predecessors : List System → ℕ → List ℕ
predecessors systems s = elim (get_elem? systems s) [ none ↦ [] | some r ↦ r.predecessors ]

unfoldable pub in_phase : List System → ℕ → ℕ → Bool
in_phase systems phase s = elim (get_elem? systems s) [
  | none ↦ false
  | some r ↦ r.desc.phase == phase
]

-- `mPredecessors.push_back(before)` of the system `after`
unfoldable pub add_predecessor : List System → ℕ → ℕ → List System
add_predecessor systems before after = elim (get_elem? systems after) [
  | none ↦ systems
  | some r ↦ set systems after (record r { predecessors = r.predecessors ++ before ∷ [] })
]

-- `AddOrder`
unfoldable pub add_order : Schedule → ℕ → ℕ → Expected (Unit {0}) × Schedule
add_order s before after =
    if s.built then (fail invalid_state, s) else elim (get_elem? s.systems before) [
      | none ↦ (fail invalid_argument, s)
      | some b ↦ elim (get_elem? s.systems after) [
        | none ↦ (fail invalid_argument, s)
        | some a ↦
            if before == after
            then (fail invalid_argument, s)
            else if not (b.desc.phase == a.desc.phase)
            then (fail invalid_argument, s)
            else (ok tt, record s { systems = add_predecessor s.systems before after })
      ]
    ]
