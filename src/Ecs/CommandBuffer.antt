-- ===== src/Ecs/CommandBuffer.antt =====
-- CommandBuffer.cpp and its header: the commands that a system records for the next sync point. A
-- command that the source overloads on its target takes a `Target`. Pointers are addresses.
use oyi_engine.Prelude.{
  ℕ, zero, suc, ◌+◌, ◌-◌, ◌*◌, ◌/◌, ◌%◌, ◌^◌, Bool, false, not, List, [], ◌∷◌, ◌++◌, ◌==◌, length,
}
use oyi_engine.Core.Handle
use oyi_engine.Core.Handle.{Handle}
use oyi_engine.Ecs.ComponentMask
use oyi_engine.Ecs.ComponentMask.{Mask}
use oyi_engine.Ecs.ComponentRegistry.{Bytes}
use oyi_engine.Ecs.World.{Mark, no_mark}

abbrev pub word : ℕ
word = 2 ^ 32

-- `PendingEntity{}` and its `IsValid`
abbrev pub invalid_pending : ℕ
invalid_pending = word - 1

abbrev pub is_pending : ℕ → Bool
is_pending index = not (index == invalid_pending)

-- `ComponentTypeIndex::Invalid()`
abbrev pub invalid_type : ℕ
invalid_type = 2 ^ 16 - 1

-- `CommandBuffer::Op`
pub data Op : Type 0 where
  create clone destroy add remove set_value enable mark managed_state link call : Op

pub record Command : Type 0 where
  pub sort_key : ℕ
  pub op : Op
  pub flag : Bool
  pub new_mark : Mark
  pub managed : Handle
  pub type : ℕ
  pub entity : Handle
  pub pending : ℕ
  pub reference : ℕ
  pub payload_offset : ℕ
  pub payload_size : ℕ

pub record CommandBuffer : Type 0 where
  pub sort_key : ℕ
  pub commands : List Command
  pub create_masks : List Mask
  pub payload : Bytes

unfoldable pub empty_buffer : CommandBuffer
empty_buffer = record { sort_key = 0; commands = []; create_masks = []; payload = [] }

-- `SetSortKey`: the commands that are recorded from now on.
unfoldable pub set_sort_key : CommandBuffer → ℕ → CommandBuffer
set_sort_key b key = record b { sort_key = key }

-- The target of a command: an entity, or one that this buffer creates.
pub data Target : Type 0 where
  to_entity : Handle → Target
  to_pending : ℕ → Target

entity_of : Target → Handle
entity_of (to_entity e) = e
entity_of (to_pending p) = Handle.invalid

pending_of : Target → ℕ
pending_of (to_entity e) = invalid_pending
pending_of (to_pending p) = p

-- The command that `Record` pushes, and `Record`.
new_command : CommandBuffer → Op → ℕ → Handle → ℕ → ℕ → ℕ → Bool → Command
new_command b op type entity pending offset size flag = record {
  sort_key = b.sort_key;
  op = op;
  flag = flag;
  new_mark = no_mark;
  managed = Handle.invalid;
  type = type;
  entity = entity;
  pending = pending;
  reference = invalid_pending;
  payload_offset = offset;
  payload_size = size;
}

push_command : CommandBuffer → Command → CommandBuffer
push_command b c = record b { commands = b.commands ++ c ∷ [] }

record_command : CommandBuffer → Op → ℕ → Handle → ℕ → ℕ → ℕ → Bool → CommandBuffer
unfolding push_command new_command
record_command b op type entity pending offset size flag =
    push_command b (new_command b op type entity pending offset size flag)

-- `StorePayload`: the offset, and the buffer with the bytes.
store_payload : CommandBuffer → Bytes → ℕ × CommandBuffer
store_payload b bytes = (length b.payload % word, record b { payload = b.payload ++ bytes })

-- `CreateEntity` and `CloneEntity`
pub create_entity : CommandBuffer → Mask → ℕ × CommandBuffer
unfolding record_command
create_entity b mask =
    let pending = length b.create_masks % word in
    (
      pending,
      record_command (record b { create_masks = b.create_masks ++ mask ∷ [] }) create invalid_type
          Handle.invalid pending 0 0 false,
    )

pub clone_entity : CommandBuffer → Handle → ℕ × CommandBuffer
unfolding record_command
clone_entity b source =
    let pending = length b.create_masks % word in
    (
      pending,
      record_command (record b { create_masks = b.create_masks ++ ComponentMask.empty ∷ [] }) clone
          invalid_type source pending 0 0 false,
    )

pub destroy_entity : CommandBuffer → Handle → CommandBuffer
unfolding record_command
destroy_entity b entity = record_command b destroy invalid_type entity invalid_pending 0 0 false

pub add_component : CommandBuffer → Target → ℕ → CommandBuffer
unfolding record_command entity_of pending_of
add_component b target type =
    record_command b add type (entity_of target) (pending_of target) 0 0 false

pub remove_component : CommandBuffer → Target → ℕ → CommandBuffer
unfolding record_command entity_of pending_of
remove_component b target type =
    record_command b remove type (entity_of target) (pending_of target) 0 0 false

pub set_component : CommandBuffer → Target → ℕ → Bytes → CommandBuffer
unfolding record_command entity_of pending_of store_payload
set_component b target type bytes =
    let (offset, stored) = store_payload b bytes in
    record_command stored set_value type (entity_of target) (pending_of target) offset
      (length bytes) false

pub set_component_enabled : CommandBuffer → Target → ℕ → Bool → CommandBuffer
unfolding record_command entity_of pending_of
set_component_enabled b target type enabled =
    record_command b enable type (entity_of target) (pending_of target) 0 0 enabled

pub write_managed_state : CommandBuffer → Handle → Handle → Bytes → CommandBuffer
unfolding push_command new_command store_payload
write_managed_state b owner id bytes =
    let (offset, stored) = store_payload b bytes in
    push_command stored
      (record (new_command stored managed_state invalid_type owner invalid_pending offset
        (length bytes) false) { managed = id })

pub link_entity : CommandBuffer → Target → ℕ → ℕ → ℕ → CommandBuffer
unfolding push_command new_command entity_of pending_of
link_entity b target type offset referenced =
    push_command b
      (record (new_command b link type (entity_of target) (pending_of target) offset 0 false) {
        reference = referenced;
      })

-- A number in `n` bytes, the lowest first, and back.
unfoldable pub le_bytes : ℕ → ℕ → Bytes
le_bytes zero x = []
le_bytes (suc n) x = x % 256 ∷ le_bytes n (x / 256)

unfoldable pub le_read : ℕ → Bytes → ℕ
le_read zero bytes = 0
le_read (suc n) [] = 0
le_read (suc n) (b ∷ bs) = b + 256 * le_read n bs

-- `sizeof(CallHeader)`: a function's address and its data's.
abbrev pub header_size : ℕ
header_size = 16

-- `RecordCall`, and `Call`
pub record_call : CommandBuffer → Target → ℕ → ℕ → Bytes → CommandBuffer
unfolding record_command entity_of pending_of store_payload le_bytes
record_call b target function context bytes =
    let (offset, stored) = store_payload b (le_bytes 8 function ++ le_bytes 8 context) in
    let (_, filled) = store_payload stored bytes in
    record_command filled call invalid_type (entity_of target) (pending_of target) offset
      ((header_size + length bytes) % word) false

pub set_mark : CommandBuffer → Target → Mark → CommandBuffer
unfolding push_command new_command entity_of pending_of
set_mark b target new_mark =
    push_command b
      (record (new_command b mark invalid_type (entity_of target) (pending_of target) 0 0 false) {
        new_mark = new_mark;
      })

-- `Clear`
unfoldable pub clear : CommandBuffer → CommandBuffer
clear b = record b { commands = []; create_masks = []; payload = [] }
