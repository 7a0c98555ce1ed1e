-- ===== src/Ecs/Replay/Tests.antt =====
-- Two buffers over a world with one living entity: a call of its function, a mark, and a command for
-- an entity that is dead.
use oyi_engine.Prelude.{arith, ℕ, ◌+◌, ◌≡◌, refl, true, false, some, List, [], ◌∷◌, if◌then◌else◌}
use oyi_engine.Core.Handle
use oyi_engine.Core.Handle.{Handle}
use oyi_engine.Ecs.EntityRegistry.{nowhere, is_alive}
use oyi_engine.Ecs.ComponentRegistry.{Bytes}
use oyi_engine.Ecs.World.{World, Memory, Mark, no_mark, locked, set_mark, get_mark, remember_mark}
use oyi_engine.Ecs.ManagedPool.{Pool}
use oyi_engine.Ecs.CommandBuffer.{
  CommandBuffer, Command, Op, invalid_pending, invalid_type, le_read, clear,
}
use oyi_engine.Ecs.Replay.{
  Replay, replay_order, replay_commands, replay_refs, replay_ref, replay_op, apply_alive,
  apply_command, run_call, counted, gather, refs_of, stable_sort, insert_ref, target_of,
  with_result,
}
use oyi_engine.Ecs.Replay.Order.{IsOrdered, before, named, holds, replay_order_sorted}
use oyi_engine.Ecs.Replay.Counts.{command_count, replay_commands-counts}

abbrev living : Handle
living = record { index = 0; generation = 1 }

abbrev dead : Handle
dead = record { index = 0; generation = 2 }

abbrev marks_world : Mark → ℕ → World
marks_world mark version = record {
  infos = [];
  chunk_size = 256;
  entities = record {
    slots = record { generation = 1; alive = true; location = nowhere } ∷ [];
    free_indices = [];
    alive_count = 1;
  };
  archetypes = [];
  marks = mark ∷ [];
  version = version;
}

abbrev no_objects : Pool
no_objects = record { slots = []; free_indices = []; live_count = 0 }

abbrev command : ℕ → Op → Handle → ℕ → ℕ → Command
command key op entity offset size = record {
  sort_key = key;
  op = op;
  flag = false;
  new_mark = locked;
  managed = Handle.invalid;
  type = invalid_type;
  entity = entity;
  pending = invalid_pending;
  reference = invalid_pending;
  payload_offset = offset;
  payload_size = size;
}

abbrev buffer : List Command → Bytes → CommandBuffer
buffer commands payload = record {
  sort_key = 0;
  commands = commands;
  create_masks = [];
  payload = payload;
}

-- A call of the function at address 3 with the payload 9.
abbrev call_payload : Bytes
call_payload = 3 ∷ 0 ∷ 0 ∷ 0 ∷ 0 ∷ 0 ∷ 0 ∷ 0 ∷ 0 ∷ 0 ∷ 0 ∷ 0 ∷ 0 ∷ 0 ∷ 0 ∷ 0 ∷ 9 ∷ []

abbrev two_buffers : List CommandBuffer
two_buffers =
    buffer (command 2 Op.call living 0 17 ∷ command 2 Op.destroy dead 0 0 ∷ []) call_payload
    ∷ buffer (command 1 Op.mark living 0 0 ∷ []) []
    ∷ []

-- The function stores its address and the first byte of its payload in the version, and changes the pool.
abbrev store : ℕ → ℕ → World → Pool → Handle → Bytes → World × Pool
store function context w managed target [] = (w, managed)
store function context w managed target (b ∷ bs) =
    (record w { version = function + b }, record managed { live_count = 5 })

abbrev granted : ℕ → Memory
granted step = record { archetype = true; chunk = true }

abbrev last : Replay
last = record {
  world = marks_world locked 12;
  managed = record no_objects { live_count = 5 };
  created = [] ∷ [] ∷ [];
  applied = 2;
  skipped = 1;
}

abbrev cleared : List CommandBuffer
cleared = buffer [] [] ∷ buffer [] [] ∷ []

replay_two_buffers :
    replay_commands store granted (marks_world no_mark 0) no_objects two_buffers
    ≡ some (last, cleared)
unfolding replay_commands replay_order replay_refs replay_ref replay_op apply_alive apply_command
    run_call counted gather refs_of stable_sort insert_ref target_of with_result is_alive set_mark
    get_mark remember_mark le_read clear
replay_two_buffers = refl

replay_commands-counts_example :
    (last.applied + last.skipped ≡ command_count two_buffers) × (command_count cleared ≡ 0)
replay_commands-counts_example =
    replay_commands-counts store granted (marks_world no_mark 0) no_objects two_buffers last cleared
      (omega arith) replay_two_buffers

replay_order_sorted_example :
    IsOrdered before (replay_order two_buffers)
    × ((b c key : ℕ)
        → named b c key (replay_order two_buffers) ≡ (if holds two_buffers b c key then 1 else 0))
replay_order_sorted_example = replay_order_sorted two_buffers
