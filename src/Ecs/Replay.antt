-- ===== src/Ecs/Replay.antt =====
-- World.cpp, `ReplayCommands` and `SyncPoint`, with `CloneEntity` of Serialization.cpp: the commands
-- of all buffers, applied in the order of their keys. The functions that `Call` commands name are not
-- under the engine's control: they are the argument `callback`, of a function's address, its data's,
-- the world with its pool, the target and the payload. `memory` is what the allocator answers to each command, and
-- `managed` is the pool of managed objects, which is a member of the world in the source.
pub mod Order
pub mod Counts
mod Tests
use oyi_engine.Prelude.{
  ℕ, zero, suc, ◌+◌, ◌*◌, ◌-◌, ◌%◌, ◌^◌, Bool, true, false, not, ◌&&◌, ◌||◌, Option, none, some,
  List, [], ◌∷◌, ◌++◌, ltb, leb, ◌==◌, if◌then◌else◌, length, get_elem?, get_or, set, take, drop,
  replicate, Expected, ok, fail, not_found, map,
}
use oyi_engine.Core.Handle
use oyi_engine.Core.Handle.{Handle}
use oyi_engine.Ecs.EntityRegistry
use oyi_engine.Ecs.EntityRegistry.{Location, word}
use oyi_engine.Ecs.ComponentMask
use oyi_engine.Ecs.ComponentRegistry
use oyi_engine.Ecs.ComponentRegistry.{Bytes}
use oyi_engine.Ecs.ChunkLayout.{Column, find_column}
use oyi_engine.Ecs.Archetype
use oyi_engine.Ecs.Archetype.{Archetype, Chunk, Row}
use oyi_engine.Ecs.World.{
  World, Mark, Memory, prototype, locked, get_mark, remember_mark, set_mark, create_entity,
  destroy_entity,
}
use oyi_engine.Ecs.World.Components.{
  archetype_of, row_of, has_component, add_component, remove_component, set_component_enabled,
}
use oyi_engine.Ecs.ManagedPool.{Object, Pool, resolve}
use oyi_engine.Ecs.CommandBuffer.{
  CommandBuffer, Command, Op, is_pending, le_bytes, le_read, header_size, clear,
}

is_prototype : Mark → Bool
is_prototype Mark.no_mark = false
is_prototype Mark.prototype = true
is_prototype Mark.locked = false

-- The end of `CloneEntity`, for an entity that was created.
finish_clone : World → Handle → Location → Bool → Handle → Option World
finish_clone w source source_row from_prototype created =
    elim (get_elem? w.archetypes source_row.archetype) [
      | none ↦ none
      | some source_archetype ↦ elim (row_of w source) [
        | none ↦ none
        | some row ↦ elim (EntityRegistry.get_location w.entities created) [
          | none ↦ none
          | some target_row ↦ elim (get_elem? w.archetypes target_row.archetype) [
            | none ↦ none
            | some target ↦
                elim (Archetype.copy_shared target target_row source_archetype.layout row) [
                  | none ↦ none
                  | some copied ↦ some (record w {
                    archetypes = set w.archetypes target_row.archetype copied;
                    marks =
                        if from_prototype
                        then remember_mark w.marks created.index locked
                        else w.marks;
                  })
                ]
          ]
        ]
      ]
    ]

-- `CloneEntity`
pub clone_entity : World → Handle → Memory → Option (Expected Handle × World)
unfolding finish_clone is_prototype
clone_entity w source memory =
    if not (EntityRegistry.is_alive w.entities source)
    then some (fail not_found, w)
    else elim (EntityRegistry.get_location w.entities source) [
      | none ↦ none
      | some source_row ↦ elim (get_elem? w.archetypes source_row.archetype) [
        | none ↦ none
        | some source_archetype ↦ elim (create_entity w source_archetype.mask memory) [
          | none ↦ none
          | some (fail e, made) ↦ some (fail e, made)
          | some (ok created, made) ↦
              elim (finish_clone made source source_row (is_prototype (get_mark w source))
                created) [ none ↦ none | some copied ↦ some (ok created, copied) ]
        ]
      ]
    ]

-- The chunk at a location, changed.
update_chunk : World → Location → Archetype → (Chunk → Chunk) → World
update_chunk w at archetype f = elim (get_elem? archetype.chunks at.chunk) [
  | none ↦ w
  | some c ↦ record w {
    archetypes =
        set w.archetypes at.archetype
          (record archetype { chunks = set archetype.chunks at.chunk (f c) });
  }
]

-- `GetComponentForWrite`: the version is stamped where there is a component to point to. The pointer
-- is the bytes it points to, and a write through it is `write_cell`.
pub component_for_write : World → Handle → ℕ → Option World
unfolding update_chunk
component_for_write w entity type =
    if not (EntityRegistry.is_alive w.entities entity)
    then none
    else elim (EntityRegistry.get_location w.entities entity) [
      | none ↦ none
      | some at ↦ elim (get_elem? w.archetypes at.archetype) [
        | none ↦ none
        | some archetype ↦ elim (find_column archetype.layout.columns type) [
          | none ↦ none
          | some column ↦ some (
              update_chunk w at archetype
                (λ c. record c { versions = set c.versions column.slot w.version }))
        ]
      ]
    ]

-- `memcpy` over the bytes from `offset` on.
overwrite : Bytes → ℕ → Bytes → Bytes
overwrite cell offset bytes = take offset cell ++ (bytes ++ drop (offset + length bytes) cell)

set_cell : List Column → List Bytes → ℕ → (Bytes → Bytes) → List Bytes
set_cell [] cells type f = cells
set_cell (c ∷ cs) [] type f = []
set_cell (c ∷ cs) (v ∷ cells) type f =
    let rest = set_cell cs cells type f in if c.type == type then f v ∷ cells else v ∷ rest

write_row : Archetype → Location → ℕ → (Bytes → Bytes) → Chunk → Chunk
unfolding set_cell
write_row archetype at type f c = elim (get_elem? c.rows at.row) [
  | none ↦ c
  | some row ↦ record c {
    rows =
        set c.rows at.row
          (record row { cells = set_cell archetype.layout.columns row.cells type f });
  }
]

write_cell : World → Handle → ℕ → ℕ → Bytes → World
unfolding update_chunk write_row overwrite
write_cell w entity type offset bytes = elim (EntityRegistry.get_location w.entities entity) [
  | none ↦ w
  | some at ↦ elim (get_elem? w.archetypes at.archetype) [
    | none ↦ w
    | some archetype ↦
        update_chunk w at archetype
          (write_row archetype at type (λ cell. overwrite cell offset bytes))
  ]
]

-- `mComponents.GetInfo(type).mSize`
component_size : World → ℕ → ℕ
component_size w type = elim (ComponentRegistry.get_info w.infos type) [
  | none ↦ 0
  | some info ↦ info.size
]

-- `Ref`
pub record Ref : Type 0 where
  pub sort_key : ℕ
  pub buffer : ℕ
  pub command : ℕ

-- The refs of one buffer from command `c` on, and of all buffers from `b` on. The source counts both
-- in 32 bits, and its loops do not end where there are 2^32 of them.
unfoldable pub refs_of : ℕ → ℕ → List Command → List Ref
refs_of b c [] = []
refs_of b c (x ∷ xs) =
    record { sort_key = x.sort_key; buffer = b; command = c } ∷ refs_of b (suc c) xs

unfoldable pub gather : ℕ → List CommandBuffer → List Ref
gather b [] = []
gather b (x ∷ xs) = refs_of b 0 x.commands ++ gather (suc b) xs

-- `std::ranges::stable_sort` by key.
unfoldable pub insert_ref : Ref → List Ref → List Ref
insert_ref x [] = x ∷ []
insert_ref x (y ∷ ys) =
    let rest = insert_ref x ys in if leb x.sort_key y.sort_key then x ∷ y ∷ ys else y ∷ rest

unfoldable pub stable_sort : List Ref → List Ref
stable_sort [] = []
stable_sort (x ∷ xs) = insert_ref x (stable_sort xs)

unfoldable pub replay_order : List CommandBuffer → List Ref
replay_order buffers = stable_sort (gather 0 buffers)

-- What the loop over the commands changes; `created` has a row for each buffer.
pub record Replay : Type 0 where
  pub world : World
  pub managed : Pool
  pub created : List (List Handle)
  pub applied : ℕ
  pub skipped : ℕ

pub created_by : Replay → ℕ → ℕ → Handle
created_by r buffer index = get_or (get_or r.created buffer []) index Handle.invalid

-- The target of a command.
pub target_of : Replay → ℕ → Command → Handle
unfolding created_by
target_of r buffer c = if is_pending c.pending then created_by r buffer c.pending else c.entity

-- The count of a command that was applied, or was not, in 32 bits.
unfoldable pub counted : Bool → Replay → Replay
counted done r =
    if done
    then record r { applied = (r.applied + 1) % word }
    else record r { skipped = (r.skipped + 1) % word }

-- A creation: the new entity fills its slot.
pub fill_slot : Replay → ℕ → ℕ → Option (Expected Handle × World) → Option (Bool × Replay)
fill_slot r buffer index none = none
fill_slot r buffer index (some (fail e, w)) = some (false, record r { world = w })
fill_slot r buffer index (some (ok entity, w)) = some (
  true,
  record r {
    world = w;
    created = set r.created buffer (set (get_or r.created buffer []) index entity);
  },
)

-- A command whose outcome is a result.
pub with_result : Replay → Option (Expected (Unit {0}) × World) → Option (Bool × Replay)
with_result r none = none
with_result r (some (ok _, w)) = some (true, record r { world = w })
with_result r (some (fail e, w)) = some (false, record r { world = w })

-- A write of bytes through `GetComponentForWrite`, if `fits` holds.
pub write_through : Replay → Handle → ℕ → ℕ → Bytes → Bool → Bool × Replay
unfolding write_cell
write_through r target type offset bytes fits = elim (component_for_write r.world target type) [
  | none ↦ (false, r)
  | some stamped ↦
      if fits
      then (true, record r { world = write_cell stamped target type offset bytes })
      else (false, record r { world = stamped })
]

is_some {ℓ} : {A : Type ℓ} → Option A → Bool
is_some none = false
is_some (some a) = true

-- The bytes of a handle in memory.
pub handle_bytes : Handle → Bytes
unfolding le_bytes
handle_bytes h = le_bytes 4 h.index ++ le_bytes 4 h.generation

-- The write of a managed object's state block.
pub write_state : Replay → Handle → Handle → Bytes → Bool × Replay
unfolding is_some
write_state r target id bytes = elim (resolve r.managed id) [
  | none ↦ (false, r)
  | some o ↦
      if is_some o.type_id && Handle.equal o.owner target && length o.state == length bytes
      then elim (get_elem? r.managed.slots id.index) [
        | none ↦ (false, r)
        | some slot ↦ (
          true,
          record r {
            managed = record r.managed {
              slots =
                  set r.managed.slots id.index
                    (record slot { object = some (record o { state = bytes }) });
            };
          },
        )
      ]
      else (false, r)
]

module _ (callback : ℕ → ℕ → World → Pool → Handle → Bytes → World × Pool) where
  -- A `Call` command: the header is read back from the payload.
  pub run_call : Replay → Handle → Bytes → Bool × Replay
  unfolding le_read
  run_call r target payload =
      let function = le_read 8 payload in
      let context = le_read 8 (drop 8 payload) in
      let (world, managed) =
        callback function context r.world r.managed target (drop header_size payload) in
      if function == 0 then (false, r) else (true, record r { world = world; managed = managed })

  -- The `switch` over the operations, for a target that is alive.
  pub apply_command :
      Memory → Replay → CommandBuffer → ℕ → Command → Handle → Op → Option (Bool × Replay)
  unfolding with_result write_through write_state run_call component_size created_by handle_bytes
  apply_command memory r b buffer c target Op.create = some (false, r)
  apply_command memory r b buffer c target Op.clone = some (false, r)
  apply_command memory r b buffer c target Op.destroy =
      with_result r (destroy_entity r.world target)
  apply_command memory r b buffer c target Op.add =
      with_result r (add_component r.world target c.type memory)
  apply_command memory r b buffer c target Op.remove =
      with_result r (remove_component r.world target c.type memory)
  apply_command memory r b buffer c target Op.set_value = some (
      write_through r target c.type 0 (take c.payload_size (drop c.payload_offset b.payload))
        (component_size r.world c.type == c.payload_size))
  apply_command memory r b buffer c target Op.enable =
      if has_component r.world target c.type
      then some (true, record r { world = set_component_enabled r.world target c.type c.flag })
      else some (false, r)
  apply_command memory r b buffer c target Op.mark =
      with_result r (some (set_mark r.world target c.new_mark))
  apply_command memory r b buffer c target Op.link =
      let referenced =
        if is_pending c.reference then created_by r buffer c.reference else Handle.invalid in
      some (
        write_through r target c.type c.payload_offset (handle_bytes referenced) (
          Handle.is_valid referenced && leb (c.payload_offset + 8) (component_size r.world c.type)))
  apply_command memory r b buffer c target Op.call =
      some (run_call r target (take c.payload_size (drop c.payload_offset b.payload)))
  apply_command memory r b buffer c target Op.managed_state =
      some (write_state r target c.managed (take c.payload_size (drop c.payload_offset b.payload)))

  -- A command whose target is dead is skipped, and any other is applied.
  pub apply_alive : Memory → Replay → CommandBuffer → ℕ → Command → Op → Option (Bool × Replay)
  unfolding apply_command target_of
  apply_alive memory r b buffer c op =
      let target = target_of r buffer c in
      if not (EntityRegistry.is_alive r.world.entities target)
      then some (false, r)
      else apply_command memory r b buffer c target op

  -- The body of the loop, without the count: `Create` and `Clone` fill their slots.
  pub replay_op : Memory → Replay → CommandBuffer → ℕ → Command → Op → Option (Bool × Replay)
  unfolding fill_slot apply_alive
  replay_op memory r b buffer c Op.create = elim (get_elem? b.create_masks c.pending) [
    | none ↦ none
    | some mask ↦ fill_slot r buffer c.pending (create_entity r.world mask memory)
  ]
  replay_op memory r b buffer c Op.clone =
      fill_slot r buffer c.pending (clone_entity r.world c.entity memory)
  replay_op memory r b buffer c op = apply_alive memory r b buffer c op

  -- The body of the loop. A ref names a command of its buffer.
  unfoldable pub replay_ref : (ℕ → Memory) → List CommandBuffer → Replay → Ref → Option Replay
  unfolding replay_op counted
  replay_ref memory buffers r ref = elim (get_elem? buffers ref.buffer) [
    | none ↦ none
    | some b ↦ elim (get_elem? b.commands ref.command) [
      | none ↦ none
      | some c ↦ elim (replay_op (memory (r.applied + r.skipped)) r b ref.buffer c c.op) [
        | none ↦ none
        | some (done, after) ↦ some (counted done after)
      ]
    ]
  ]

  unfoldable pub replay_refs : (ℕ → Memory) → List CommandBuffer → List Ref → Replay → Option Replay
  replay_refs memory buffers [] r = some r
  replay_refs memory buffers (ref ∷ refs) r = elim (replay_ref memory buffers r ref) [
    | none ↦ none
    | some next ↦ replay_refs memory buffers refs next
  ]

  -- `ReplayCommands`, with the buffers that it leaves.
  unfoldable pub replay_commands :
      (ℕ → Memory) → World → Pool → List CommandBuffer → Option (Replay × List CommandBuffer)
  unfolding replay_order
  replay_commands memory w managed buffers =
      let start : Replay = record {
        world = w;
        managed = managed;
        created =
            map (λ (b : CommandBuffer). replicate (length b.create_masks) Handle.invalid) buffers;
        applied = 0;
        skipped = 0;
      } in
      elim (replay_refs memory buffers (replay_order buffers) start) [
        | none ↦ none
        | some r ↦ some (r, map clear buffers)
      ]

  -- `AdvanceVersion` and `SyncPoint`
  unfoldable pub sync_point :
      (ℕ → Memory) → World → Pool → List CommandBuffer → Option (Replay × List CommandBuffer)
  sync_point memory w managed buffers = elim (replay_commands memory w managed buffers) [
    | none ↦ none
    | some (r, cleared) ↦
        some
          (record r { world = record r.world { version = (r.world.version + 1) % word } }, cleared)
  ]
