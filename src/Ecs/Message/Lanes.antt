-- ===== src/Ecs/Message/Lanes.antt =====
-- Message.cpp: an inbox as a map from types to queues.
use oyi_engine.Prelude.{
  ℕ, zero, suc, ◌+◌, ◌-◌, ◌<◌, ◌≡◌, refl, List, [], ◌∷◌, ◌++◌, ◌==◌, if◌then◌else◌, length,
  length-append, length-replicate, get_elem?-set, set, replicate, arith,
}
use oyi_engine.Core.Handle.{Handle}
use oyi_engine.Ecs.ComponentRegistry.{Bytes}
use oyi_engine.Ecs.Message.{Lane, Inbox, empty_lane, lanes_for, lane_at, push, targets, payload}

lane_at-replicate : (n t : ℕ) → lane_at (replicate n empty_lane) t ≡ empty_lane
unfolding lane_at
lane_at-replicate zero t = refl
lane_at-replicate (suc n) zero = refl
lane_at-replicate (suc n) (suc t) = lane_at-replicate n t

lane_at-grown :
    (lanes : List Lane) (n t : ℕ) → lane_at (lanes ++ replicate n empty_lane) t ≡ lane_at lanes t
unfolding lane_at
lane_at-grown [] n t = lane_at-replicate n t
lane_at-grown (l ∷ lanes) n zero = refl
lane_at-grown (l ∷ lanes) n (suc t) = lane_at-grown lanes n t

length-lanes_for : (lanes : List Lane) (type : ℕ) → type < length (lanes_for lanes type)
unfolding lanes_for
length-lanes_for lanes type = omega (
  arith,
  length-append lanes (replicate (type + 1 - length lanes) empty_lane),
  length-replicate (type + 1 - length lanes) empty_lane,
)

lane_at-set :
    (lanes : List Lane) (i t : ℕ) (l : Lane)
    → i < length lanes
    → lane_at (set lanes i l) t ≡ (if i == t then l else lane_at lanes t)
unfolding lane_at
lane_at-set lanes i t l h = ground (arith, get_elem?-set lanes i t l h)

lane_at-push :
    (i : Inbox) (type t : ℕ) (target : Handle) (bytes : Bytes)
    → lane_at (push i type target bytes).lanes t ≡ (
        if type == t
        then record {
          targets = (lane_at i.lanes type).targets ++ target ∷ [];
          payload = (lane_at i.lanes type).payload ++ bytes;
        }
        else lane_at i.lanes t)
unfolding push lanes_for
lane_at-push i type t target bytes =
    let grown = λ (s : ℕ). lane_at-grown i.lanes (type + 1 - length i.lanes) s in
    ground (
      arith,
      grown t,
      grown type,
      lane_at-set (lanes_for i.lanes type) type t
          (record {
            targets = (lane_at (lanes_for i.lanes type) type).targets ++ target ∷ [];
            payload = (lane_at (lanes_for i.lanes type) type).payload ++ bytes;
          })
          (length-lanes_for i.lanes type),
    )

-- A push appends to the queue of its type and leaves every other queue alone.
pub targets-push :
    (i : Inbox) (type t : ℕ) (target : Handle) (bytes : Bytes)
    → (targets (push i type target bytes) t
        ≡ (if type == t then targets i t ++ target ∷ [] else targets i t))
      × (payload (push i type target bytes) t
          ≡ (if type == t then payload i t ++ bytes else payload i t))
unfolding targets payload
targets-push i type t target bytes = (
  ground (arith, lane_at-push i type t target bytes),
  ground (arith, lane_at-push i type t target bytes),
)
