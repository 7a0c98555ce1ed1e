-- ===== src/Net/Prediction.antt =====
-- engine/oyi_net/src/oyi_net/Prediction.cpp and its header: rings of one slot per simulation tick.
-- `InputHistory` keeps the inputs of a game; `PredictionHistory` keeps captures of the predicted
-- components. What a slot holds is the parameter `A`; capturing and restoring a world are not modelled.
pub mod Window
pub mod Rollback
mod Tests
use oyi_engine.Prelude.{
  ℕ, zero, suc, ◌+◌, ◌-◌, ◌%◌, ◌^◌, Bool, true, false, not, ◌&&◌, ◌||◌, Option, none, some, List,
  [], ◌∷◌, ltb, ◌==◌, if◌then◌else◌, get_elem?, set, replicate,
}

module _ (A : Type 0) where
  -- `InputHistory::Entry`, and `PredictionHistory::Slot` with its capture.
  pub record Slot : Type 0 where
    pub value : A
    pub tick : ℕ
    pub used : Bool

  -- `InputHistory`
  pub record Inputs : Type 0 where
    pub entries : List Slot
    pub capacity : ℕ

  -- `PredictionHistory`
  pub record History : Type 0 where
    pub slots : List Slot
    pub capacity : ℕ
    pub count : ℕ
    pub newest : ℕ

module _ {A : Type 0} where
  -- The slots of a new ring.
  pub fresh : A → ℕ → List (Slot A)
  fresh value capacity = replicate capacity (record { value = value; tick = 0; used = false })

  -- A used slot of the tick.
  pub holds : Option (Slot A) → ℕ → Option A
  holds none tick = none
  holds (some slot) tick = if slot.used && slot.tick == tick then some slot.value else none

  -- `InputHistory::Push` and `Get`
  pub push : Inputs A → ℕ → A → Inputs A
  push h tick input = record h {
    entries =
        set h.entries (tick % h.capacity) (record { value = input; tick = tick; used = true });
  }

  pub get : Inputs A → ℕ → Option A
  unfolding holds
  get h tick = holds (get_elem? h.entries (tick % h.capacity)) tick

  -- The constructor of `PredictionHistory`, which takes zero for one.
  pub new_history : A → ℕ → History A
  unfolding fresh
  new_history value capacity =
      let size = if capacity == 0 then 1 else capacity in
      record { slots = fresh value size; capacity = size; count = 0; newest = 0 }

  -- `Find`
  pub find : History A → ℕ → Option A
  unfolding holds
  find h tick = holds (get_elem? h.slots (tick % h.capacity)) tick

  is_used : Option (Slot A) → Bool
  is_used none = false
  is_used (some slot) = slot.used

  -- `Record` of a capture.
  pub capture : History A → ℕ → A → History A
  unfolding is_used
  capture h tick value =
      let at = tick % h.capacity in
      let count = if is_used (get_elem? h.slots at) then h.count else (h.count + 1) % 2 ^ 32 in
      record {
        slots = set h.slots at (record { value = value; tick = tick; used = true });
        capacity = h.capacity;
        count = count;
        newest = if count == 1 || ltb h.newest tick then tick else h.newest;
      }

  -- `GetNewestTick` and `GetOldestTick`: the loop's `any` and its tick.
  pub newest_from : List (Slot A) → Bool → ℕ → ℕ
  newest_from [] any newest = newest
  newest_from (s ∷ slots) any newest =
      newest_from slots (any || s.used)
        (if s.used && (not any || ltb newest s.tick) then s.tick else newest)

  pub oldest_from : List (Slot A) → Bool → ℕ → ℕ
  oldest_from [] any oldest = oldest
  oldest_from (s ∷ slots) any oldest =
      oldest_from slots (any || s.used)
        (if s.used && (not any || ltb s.tick oldest) then s.tick else oldest)

  -- The loop of `Truncate`: the slots, and how many captures it drops.
  pub drop_newer : A → ℕ → List (Slot A) → List (Slot A) × ℕ
  drop_newer cleared tick [] = ([], 0)
  drop_newer cleared tick (s ∷ slots) =
      let (rest, dropped) = drop_newer cleared tick slots in
      if s.used && ltb tick s.tick
      then (record { value = cleared; tick = s.tick; used = false } ∷ rest, suc dropped)
      else (s ∷ rest, dropped)

  -- `Truncate`
  pub truncate : A → History A → ℕ → History A
  unfolding drop_newer newest_from
  truncate cleared h tick =
      let (slots, dropped) = drop_newer cleared tick h.slots in
      record {
        slots = slots;
        capacity = h.capacity;
        count = (h.count + 2 ^ 32 - dropped) % 2 ^ 32;
        newest = newest_from slots false 0;
      }
