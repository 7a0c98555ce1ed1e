-- ===== src/Ecs/Message.antt =====
-- Message.cpp and its header: message types, a system's outbox and its inbox. A lane is the queue of
-- one type in an inbox.
pub mod Lanes
mod Tests
use oyi_engine.Prelude.{
  ℕ, zero, suc, ◌+◌, ◌-◌, ◌%◌, ◌^◌, Bool, true, false, not, ◌&&◌, Option, none, some, List, [], ◌∷◌,
  ◌++◌, ◌==◌, if◌then◌else◌, ltb, leb, length, get_elem?, set, replicate, map, Expected, ok, fail,
  invalid_argument, already_exists, out_of_range,
}
use oyi_engine.Core.Handle.{Handle}
use oyi_engine.Ecs.ComponentRegistry.{Bytes, Info}

abbrev pub word : ℕ
word = 2 ^ 32

-- `kMaxMessageTypes`
abbrev pub max_message_types : ℕ
max_message_types = 256

-- `MessageRegistry::Find`; `none` is the invalid index.
unfoldable pub find : List Info → ℕ → Option ℕ
find [] type_id = none
find (info ∷ infos) type_id =
    let rest = find infos type_id in
    if info.type_id == type_id then some 0 else elim rest [ none ↦ none | some i ↦ some (suc i) ]

-- `Register`, for a type that is known already.
register_known : List Info → Info → ℕ → Expected ℕ × List Info
register_known infos info index = elim (get_elem? infos index) [
  | none ↦ (fail out_of_range, infos)
  | some known ↦
      if not (known.layout_hash == info.layout_hash)
      then (fail already_exists, infos)
      else (ok index, infos)
]

-- `MessageRegistry::Register`
unfoldable pub register : List Info → Info → Expected ℕ × List Info
unfolding register_known find
register infos info =
    if info.type_id == 0 then (fail invalid_argument, infos) else elim (find infos info.type_id) [
      | some index ↦ register_known infos info index
      | none ↦
          if leb max_message_types (length infos)
          then (fail out_of_range, infos)
          else (ok (length infos), infos ++ info ∷ [])
    ]

-- `MessageBuffer::Record` and `MessageBuffer`
pub record Record : Type 0 where
  pub type : ℕ
  pub target : Handle
  pub payload_offset : ℕ
  pub payload_size : ℕ

pub record Outbox : Type 0 where
  pub records : List Record
  pub payload : Bytes

unfoldable pub empty_outbox : Outbox
empty_outbox = record { records = []; payload = [] }

-- `Send` and `Clear`
unfoldable pub send : Outbox → ℕ → Handle → Bytes → Outbox
send b type target bytes = record {
  records =
      b.records
      ++ record {
        type = type;
        target = target;
        payload_offset = length b.payload % word;
        payload_size = length bytes;
      }
        ∷ [];
  payload = b.payload ++ bytes;
}

unfoldable pub clear_outbox : Outbox → Outbox
clear_outbox b = record { records = []; payload = [] }

-- `MessageInbox::Lane` and `MessageInbox`
pub record Lane : Type 0 where
  pub targets : List Handle
  pub payload : Bytes

pub record Inbox : Type 0 where
  pub lanes : List Lane
  pub total : ℕ

abbrev pub empty_lane : Lane
empty_lane = record { targets = []; payload = [] }

unfoldable pub empty_inbox : Inbox
empty_inbox = record { lanes = []; total = 0 }

-- `LaneFor`: the lanes, grown until there is one for the type.
unfoldable pub lanes_for : List Lane → ℕ → List Lane
lanes_for lanes type = lanes ++ replicate (type + 1 - length lanes) empty_lane

-- A lane that is not there yet reads as an empty one.
unfoldable pub lane_at : List Lane → ℕ → Lane
lane_at lanes type = elim (get_elem? lanes type) [ none ↦ empty_lane | some lane ↦ lane ]

-- `Push`
unfoldable pub push : Inbox → ℕ → Handle → Bytes → Inbox
unfolding lanes_for lane_at
push i type target bytes =
    let grown = lanes_for i.lanes type in
    let lane = lane_at grown type in
    record {
      lanes =
          set grown type
            (record { targets = lane.targets ++ target ∷ []; payload = lane.payload ++ bytes });
      total = (i.total + 1) % word;
    }

-- `Count`, `Targets` and `Payload`
unfoldable pub count_of : Inbox → ℕ → ℕ
unfolding lane_at
count_of i type = length (lane_at i.lanes type).targets % word

unfoldable pub targets : Inbox → ℕ → List Handle
unfolding lane_at
targets i type = (lane_at i.lanes type).targets

unfoldable pub payload : Inbox → ℕ → Bytes
unfolding lane_at
payload i type = (lane_at i.lanes type).payload

-- `Clear`: the lanes stay.
unfoldable pub clear_inbox : Inbox → Inbox
clear_inbox i = record { lanes = map (λ (_ : Lane). empty_lane) i.lanes; total = 0 }
