-- ===== src/Ecs/Routing/Delivery.antt =====
-- Schedule.cpp and Message.cpp: what is sent is what is received.
use oyi_engine.Prelude.{
  ℕ, zero, suc, ◌+◌, ◌%◌, ◌<◌, ◌≡◌, refl, sym, ap, ◌∙◌, subst, Bool, false, not, ◌&&◌, ◌||◌, none,
  some, List, [], ◌∷◌, ◌++◌, map, if◌then◌else◌, ◌==◌, length, length-append, take, drop,
  take-append, drop-append, get_elem?, arith, Option-cases, Bool-cases, inl, inr,
}
use mathlib.Core.List.{append_assoc, append-nil}
use oyi_engine.Core.Handle
use oyi_engine.Core.Handle.{Handle}
use oyi_engine.Ecs.ComponentMask
use oyi_engine.Ecs.ComponentMask.{Mask}
use oyi_engine.Ecs.ComponentRegistry.{Bytes}
use oyi_engine.Ecs.World.{World}
use oyi_engine.Ecs.World.Components.{get_component_mask}
use oyi_engine.Ecs.Query.{matches_mask}
use oyi_engine.Ecs.Message.{
  Record, Outbox, Inbox, word, push, send, clear_outbox, empty_outbox, targets, payload,
}
use oyi_engine.Ecs.Message.Lanes.{targets-push}
use oyi_engine.Ecs.Routing.{Receiver, deliver, route_record, route_records, route_outbox}

-- A message as its sender gives it.
pub record Message : Type 0 where
  pub type : ℕ
  pub target : Handle
  pub bytes : Bytes

pub send_all : Outbox → List Message → Outbox
send_all b [] = b
send_all b (m ∷ ms) = send_all (send b m.type m.target m.bytes) ms

abbrev pub bytes_of : List Message → Bytes
bytes_of [] = []
bytes_of (m ∷ ms) = m.bytes ++ bytes_of ms

-- A receiver takes the types it subscribes to, in the worlds it belongs to: broadcasts, and messages
-- to living entities that its query matches.
abbrev pub accepts : World → Receiver → ℕ → Handle → Bool
accepts w receiver type target =
    ComponentMask.test receiver.receives type
    && receiver.included
    && (not (Handle.is_valid target) || elim (get_component_mask w target) [
      | none ↦ false
      | some mask ↦ matches_mask receiver.query mask
    ])

-- The targets and the bytes of the messages of one type that a receiver accepts.
abbrev pub accepted_targets : World → Receiver → ℕ → List Message → List Handle
accepted_targets w receiver type [] = []
accepted_targets w receiver type (m ∷ ms) =
    (if m.type == type && accepts w receiver m.type m.target then m.target ∷ [] else [])
    ++ accepted_targets w receiver type ms

abbrev pub accepted_bytes : World → Receiver → ℕ → List Message → Bytes
accepted_bytes w receiver type [] = []
accepted_bytes w receiver type (m ∷ ms) =
    (if m.type == type && accepts w receiver m.type m.target then m.bytes else [])
    ++ accepted_bytes w receiver type ms

-- The records of messages whose bytes start at `offset`.
abbrev records_from : ℕ → List Message → List Record
records_from offset [] = []
records_from offset (m ∷ ms) =
    record {
      type = m.type;
      target = m.target;
      payload_offset = offset;
      payload_size = length m.bytes;
    }
    ∷ records_from (offset + length m.bytes) ms

send_all_lem :
    (b : Outbox) (ms : List Message)
    → length b.payload + length (bytes_of ms) < word
    → send_all b ms ≡ record {
      records = b.records ++ records_from (length b.payload) ms;
      payload = b.payload ++ bytes_of ms;
    }
unfolding send_all send
send_all_lem b [] h = ground (arith, append-nil b.records, append-nil b.payload)
send_all_lem b (m ∷ ms) h =
    let r : Record = record {
      type = m.type;
      target = m.target;
      payload_offset = length b.payload;
      payload_size = length m.bytes;
    } in
    let small : length b.payload % word ≡ length b.payload =
      omega (arith, length-append m.bytes (bytes_of ms)) in
    let next = send b m.type m.target m.bytes in
    let rest =
      send_all_lem next ms
        (omega (arith, length-append b.payload m.bytes, length-append m.bytes (bytes_of ms))) in
    ground (
      arith,
      rest,
      small,
      length-append b.payload m.bytes,
      append_assoc b.payload m.bytes (bytes_of ms),
      append_assoc b.records (r ∷ []) (records_from (length b.payload + length m.bytes) ms),
    )

-- One record at one receiver.
route_one : World → Bytes → Record → Receiver → Receiver
route_one w bytes r receiver =
    if Handle.is_valid r.target
    then elim (get_component_mask w r.target) [
      | none ↦ receiver
      | some mask ↦ deliver bytes r (some mask) receiver
    ]
    else deliver bytes r none receiver

get_elem?-map :
    {A B : Type 0} (f : A → B) (xs : List A) (i : ℕ) {x : A}
    → get_elem? xs i ≡ some x
    → get_elem? (map f xs) i ≡ some (f x)
get_elem?-map f [] i h = cc
get_elem?-map f (y ∷ ys) zero h = ground arith
get_elem?-map f (y ∷ ys) (suc i) h = get_elem?-map f ys i h

get_elem?-route_record :
    (w : World) (bytes : Bytes) (r : Record) (receivers : List Receiver) (i : ℕ) {x : Receiver}
    → get_elem? receivers i ≡ some x
    → get_elem? (route_record w bytes r receivers) i ≡ some (route_one w bytes r x)
unfolding route_record route_one
get_elem?-route_record w bytes r receivers i {x} h = elim (Bool-cases (Handle.is_valid r.target)) [
  | inl valid ↦ elim (Option-cases (get_component_mask w r.target)) [
    | inl e ↦ ground arith
    | inr (mask, e) ↦ ground (arith, get_elem?-map (deliver bytes r (some mask)) receivers i h)
  ]
  | inr broadcast ↦ ground (arith, get_elem?-map (deliver bytes r none) receivers i h)
]

-- The bytes of a record.
abbrev slice : Bytes → Record → Bytes
slice bytes r = take r.payload_size (drop r.payload_offset bytes)

abbrev accepts_record : World → Receiver → Record → Bool
accepts_record w x r = accepts w x r.type r.target

abbrev inbox_after : World → Receiver → Record → Bytes → Inbox
inbox_after w x r bytes =
    if accepts_record w x r then push x.inbox r.type r.target bytes else x.inbox

route_one_lem :
    (w : World) (bytes : Bytes) (r : Record) (x : Receiver)
    → route_one w bytes r x ≡ record x { inbox = inbox_after w x r (slice bytes r) }
unfolding route_one deliver
route_one_lem w bytes r x = elim (Bool-cases (Handle.is_valid r.target)) [
  | inl valid ↦ elim (Option-cases (get_component_mask w r.target)) [
    | inl e ↦ ground arith
    | inr (mask, e) ↦ ground arith
  ]
  | inr broadcast ↦ ground arith
]

inbox_after_lem :
    (w : World) (x : Receiver) (r : Record) (bytes : Bytes) (t : ℕ)
    → (targets (inbox_after w x r bytes) t
        ≡ targets x.inbox t ++ (if r.type == t && accepts_record w x r then r.target ∷ [] else []))
      × (payload (inbox_after w x r bytes) t
          ≡ payload x.inbox t ++ (if r.type == t && accepts_record w x r then bytes else []))
inbox_after_lem w x r bytes t = elim (Bool-cases (accepts_record w x r)) [
  | inl e ↦
      let pushed = targets-push x.inbox r.type t r.target bytes in
      rw e (
        ground (arith, pushed.0, append-nil (targets x.inbox t)),
        ground (arith, pushed.1, append-nil (payload x.inbox t)),
      )
  | inr e ↦ rw e (
    ground (arith, append-nil (targets x.inbox t)),
    ground (arith, append-nil (payload x.inbox t)),
  )
]

-- The queues of a receiver grew by the messages that it accepts.
abbrev pub Received : World → List Message → Receiver → Receiver → Type 0
Received w ms x y =
    (t : ℕ)
    → (targets y.inbox t ≡ targets x.inbox t ++ accepted_targets w x t ms)
      × (payload y.inbox t ≡ payload x.inbox t ++ accepted_bytes w x t ms)

route_records_lem :
    (w : World) (ms : List Message) (pre whole : Bytes) (receivers : List Receiver) (i : ℕ)
    (x : Receiver)
    → whole ≡ pre ++ bytes_of ms
    → get_elem? receivers i ≡ some x
    → (y : Receiver) × (get_elem? (route_records w whole (records_from (length pre) ms) receivers) i
        ≡ some y)
      × Received w ms x y
unfolding route_records
route_records_lem w [] pre whole receivers i x e h =
    (x, h, λ t. (sym (append-nil (targets x.inbox t)), sym (append-nil (payload x.inbox t))))
route_records_lem w (m ∷ ms) pre whole receivers i x e h =
    let r : Record = record {
      type = m.type;
      target = m.target;
      payload_offset = length pre;
      payload_size = length m.bytes;
    } in
    let cut : slice whole r ≡ m.bytes =
      ap (λ b. take (length m.bytes) (drop (length pre) b)) e
      ∙ ap (take (length m.bytes)) (drop-append pre (m.bytes ++ bytes_of ms))
      ∙ take-append m.bytes (bytes_of ms) in
    let x1 : Receiver = record x { inbox = inbox_after w x r m.bytes } in
    let found : get_elem? (route_record w whole r receivers) i ≡ some x1 =
      get_elem?-route_record w whole r receivers i h
      ∙ ap some
          (route_one_lem w whole r x ∙ ap (λ b. record x { inbox = inbox_after w x r b }) cut) in
    let (y, at, received) =
      route_records_lem w ms (pre ++ m.bytes) whole (route_record w whole r receivers) i x1
        (e ∙ sym (append_assoc pre m.bytes (bytes_of ms))) found in
    (
      y,
      subst
          (λ n.
            get_elem? (route_records w whole (records_from n ms) (route_record w whole r receivers))
              i
            ≡ some y)
          (length-append pre m.bytes) at,
      λ t.
          let now = inbox_after_lem w x r m.bytes t in
          let later = received t in
          (
            later.0
                ∙ ap (λ a. a ++ accepted_targets w x t ms) now.0
                ∙ append_assoc (targets x.inbox t) _ _,
            later.1
                ∙ ap (λ a. a ++ accepted_bytes w x t ms) now.1
                ∙ append_assoc (payload x.inbox t) _ _,
          ),
    )

-- Messages that are sent to an empty outbox, with less than 2^32 bytes in all, and routed: every
-- receiver has, behind what its queues held, the targets and the bytes of exactly the messages that it
-- accepts, type by type and in the order of sending; and the outbox is empty again.
pub route_outbox-send_all :
    (w : World) (ms : List Message) (receivers : List Receiver)
    → length (bytes_of ms) < word
    → ((route_outbox w (send_all empty_outbox ms) receivers).1 ≡ empty_outbox)
      × ((i : ℕ) (x : Receiver)
          → get_elem? receivers i ≡ some x
          → (y : Receiver) × (get_elem? (route_outbox w (send_all empty_outbox ms) receivers).0 i
              ≡ some y)
            × Received w ms x y)
unfolding route_outbox clear_outbox empty_outbox
route_outbox-send_all w ms receivers h =
    let sent = send_all_lem empty_outbox ms (omega (arith, h)) in
    (
      refl,
      λ i x found.
          let (y, at, received) =
            route_records_lem w ms [] (bytes_of ms) receivers i x refl found in
          (
            y,
            ap (λ (b : Outbox). get_elem? (route_records w b.payload b.records receivers) i) sent
                ∙ at,
            received,
          ),
    )
