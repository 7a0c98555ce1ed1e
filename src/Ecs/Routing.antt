-- ===== src/Ecs/Routing.antt =====
-- Schedule.cpp, `RouteOutbox`: the messages of an outbox go to the inboxes of the systems that receive
-- their type, in the order of sending.
pub mod Delivery
mod Tests
use oyi_engine.Prelude.{
  ℕ, zero, suc, ◌+◌, Bool, true, false, not, ◌&&◌, ◌||◌, Option, none, some, List, [], ◌∷◌, ◌++◌,
  map, if◌then◌else◌, take, drop,
}
use oyi_engine.Core.Handle
use oyi_engine.Core.Handle.{Handle}
use oyi_engine.Ecs.ComponentMask
use oyi_engine.Ecs.ComponentMask.{Mask}
use oyi_engine.Ecs.ComponentRegistry.{Bytes}
use oyi_engine.Ecs.World.{World}
use oyi_engine.Ecs.World.Components.{get_component_mask}
use oyi_engine.Ecs.Query.{Query, matches_mask}
use oyi_engine.Ecs.Message.{Record, Outbox, Inbox, push, clear_outbox}

-- What the routing reads of a `SystemRecord`: `mReceives`, whether its kinds include the world's, its
-- query, and its inbox.
pub record Receiver : Type 0 where
  pub receives : Mask
  pub included : Bool
  pub query : Query
  pub inbox : Inbox

-- The body of the loop over the receivers; `target_mask` is `none` for `nullptr`, a broadcast.
unfoldable pub deliver : Bytes → Record → Option Mask → Receiver → Receiver
deliver payload r target_mask receiver =
    if not (ComponentMask.test receiver.receives r.type) || not receiver.included
    then receiver
    else if elim target_mask [ none ↦ false | some mask ↦ not (matches_mask receiver.query mask) ]
    then receiver
    else record receiver {
      inbox =
          push receiver.inbox r.type r.target (take r.payload_size (drop r.payload_offset payload));
    }

-- The body of the loop over the records: the loop over the receivers, unless the target died.
unfoldable pub route_record : World → Bytes → Record → List Receiver → List Receiver
unfolding deliver
route_record w payload r receivers =
    if Handle.is_valid r.target
    then elim (get_component_mask w r.target) [
      | none ↦ receivers
      | some mask ↦ map (deliver payload r (some mask)) receivers
    ]
    else map (deliver payload r none) receivers

unfoldable pub route_records : World → Bytes → List Record → List Receiver → List Receiver
unfolding route_record
route_records w payload [] receivers = receivers
route_records w payload (r ∷ rs) receivers =
    route_records w payload rs (route_record w payload r receivers)

-- `RouteOutbox`: the receivers, and the outbox, which is cleared.
unfoldable pub route_outbox : World → Outbox → List Receiver → List Receiver × Outbox
unfolding route_records
route_outbox w outbox receivers =
    (route_records w outbox.payload outbox.records receivers, clear_outbox outbox)
