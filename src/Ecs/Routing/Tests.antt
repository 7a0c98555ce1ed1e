-- ===== src/Ecs/Routing/Tests.antt =====
-- A broadcast and a message to an entity that is dead, and two receivers.
use oyi_engine.Prelude.{ℕ, ◌≡◌, true, some, List, [], ◌∷◌, get_elem?, arith}
use oyi_engine.Core.Handle
use oyi_engine.Core.Handle.{Handle}
use oyi_engine.Ecs.ComponentMask
use oyi_engine.Ecs.World.{World}
use oyi_engine.Ecs.Query.{Query}
use oyi_engine.Ecs.Message.{empty_outbox, empty_inbox}
use oyi_engine.Ecs.Routing.{Receiver, route_outbox}
use oyi_engine.Ecs.Routing.Delivery.{Message, send_all, Received, route_outbox-send_all}

abbrev world : World
world = record {
  infos = [];
  chunk_size = 256;
  entities = record { slots = []; free_indices = []; alive_count = 0 };
  archetypes = [];
  marks = [];
  version = 1;
}

abbrev any : Query
any = record {
  all = ComponentMask.empty;
  excluded = ComponentMask.empty;
  matches = [];
  archetypes_seen = 0;
}

-- A system that receives the types in a word.
abbrev receiver : ℕ → Receiver
receiver types = record {
  receives = types ∷ 0 ∷ 0 ∷ 0 ∷ [];
  included = true;
  query = any;
  inbox = empty_inbox;
}

abbrev messages : List Message
messages =
    record { type = 0; target = Handle.invalid; bytes = 1 ∷ 2 ∷ [] }
    ∷ record { type = 1; target = record { index = 5; generation = 1 }; bytes = 3 ∷ [] }
    ∷ []

abbrev receivers : List Receiver
receivers = receiver 1 ∷ receiver 3 ∷ []

route_outbox-send_all_example :
    ((route_outbox world (send_all empty_outbox messages) receivers).1 ≡ empty_outbox)
    × ((i : ℕ) (x : Receiver)
        → get_elem? receivers i ≡ some x
        → (y : Receiver) × (get_elem?
              (route_outbox world (send_all empty_outbox messages) receivers).0
              i
            ≡ some y)
          × Received world messages x y)
route_outbox-send_all_example = route_outbox-send_all world messages receivers (omega arith)
