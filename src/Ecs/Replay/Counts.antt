-- ===== src/Ecs/Replay/Counts.antt =====
-- World.cpp, `ReplayCommands`: every command is counted, and the buffers are left empty.
use oyi_engine.Prelude.{
  ℕ, suc, ◌+◌, ◌<◌, ◌≡◌, refl, Bool, true, false, not, Option, none, some, List, [], ◌∷◌,
  if◌then◌else◌, length, length-append, get_elem?, map, arith, Option-cases, inl, inr, subst,
  Expected, ok, fail, replicate, take, drop,
}
use oyi_engine.Core.Handle
use oyi_engine.Core.Handle.{Handle}
use oyi_engine.Ecs.EntityRegistry
use oyi_engine.Ecs.EntityRegistry.{word}
use oyi_engine.Ecs.ComponentRegistry.{Bytes}
use oyi_engine.Ecs.World.{World, Memory, set_mark}
use oyi_engine.Ecs.ManagedPool.{Pool}
use oyi_engine.Ecs.CommandBuffer.{CommandBuffer, Command, Op, clear, is_pending}
use oyi_engine.Ecs.Replay.{
  Ref, Replay, refs_of, gather, insert_ref, stable_sort, replay_order, counted, created_by,
  handle_bytes, fill_slot, with_result, write_through, component_for_write, write_state, run_call,
  apply_command, apply_alive, target_of, replay_op, replay_ref, replay_refs, replay_commands,
}

-- The commands of all buffers.
abbrev pub command_count : List CommandBuffer → ℕ
command_count [] = 0
command_count (b ∷ bs) = length b.commands + command_count bs

length-insert_ref : (x : Ref) (ys : List Ref) → length (insert_ref x ys) ≡ length ys + 1
unfolding insert_ref
length-insert_ref x [] = omega arith
length-insert_ref x (y ∷ ys) = ground (arith, length-insert_ref x ys)

length-stable_sort : (xs : List Ref) → length (stable_sort xs) ≡ length xs
unfolding stable_sort
length-stable_sort [] = refl
length-stable_sort (x ∷ xs) =
    omega (arith, length-insert_ref x (stable_sort xs), length-stable_sort xs)

length-refs_of : (b c : ℕ) (xs : List Command) → length (refs_of b c xs) ≡ length xs
unfolding refs_of
length-refs_of b c [] = refl
length-refs_of b c (x ∷ xs) = omega (arith, length-refs_of b (suc c) xs)

length-gather : (b : ℕ) (xs : List CommandBuffer) → length (gather b xs) ≡ command_count xs
unfolding gather
length-gather b [] = refl
length-gather b (x ∷ xs) = omega (
  arith,
  length-append (refs_of b 0 x.commands) (gather (suc b) xs),
  length-refs_of b 0 x.commands,
  length-gather (suc b) xs,
)

-- The counts are left alone, if there is a result.
abbrev Keeps : Replay → Option (Bool × Replay) → Type 0
Keeps r none = Unit
Keeps r (some (done, after)) = (after.applied ≡ r.applied) × (after.skipped ≡ r.skipped)

fill_slot-Keeps :
    (r : Replay) (buffer index : ℕ) (o : Option (Expected Handle × World))
    → Keeps r (fill_slot r buffer index o)
unfolding fill_slot
fill_slot-Keeps r buffer index none = tt
fill_slot-Keeps r buffer index (some (fail e, w)) = (refl, refl)
fill_slot-Keeps r buffer index (some (ok entity, w)) = (refl, refl)

with_result-Keeps :
    (r : Replay) (o : Option (Expected (Unit {0}) × World)) → Keeps r (with_result r o)
unfolding with_result
with_result-Keeps r none = tt
with_result-Keeps r (some (fail e, w)) = (refl, refl)
with_result-Keeps r (some (ok _, w)) = (refl, refl)

skip-Keeps :
    (b : Bool) (r : Replay) (y : Option (Bool × Replay))
    → Keeps r y
    → Keeps r (if b then some (false, r) else y)
skip-Keeps true r y k = (refl, refl)
skip-Keeps false r y k = k

enable-Keeps :
    (b : Bool) (r : Replay) (w : World)
    → Keeps r (if b then some (true, record r { world = w }) else some (false, r))
enable-Keeps true r w = (refl, refl)
enable-Keeps false r w = (refl, refl)

write_through-Keeps :
    (r : Replay) (target : Handle) (type offset : ℕ) (bytes : Bytes) (fits : Bool)
    → Keeps r (some (write_through r target type offset bytes fits))
unfolding write_through
write_through-Keeps r target type offset bytes fits =
    elim (Option-cases (component_for_write r.world target type)) [
      | inl e ↦ rw (e, write_through) (refl, refl)
      | inr (w, e) ↦ rw (e, write_through) (ground arith, ground arith)
    ]

write_state-Keeps :
    (r : Replay) (target id : Handle) (bytes : Bytes)
    → Keeps r (some (write_state r target id bytes))
unfolding write_state
write_state-Keeps r target id bytes = (ground arith, ground arith)

module _ (callback : ℕ → ℕ → World → Pool → Handle → Bytes → World × Pool) where
  run_call-Keeps :
      (r : Replay) (target : Handle) (payload : Bytes)
      → Keeps r (some (run_call callback r target payload))
  unfolding run_call
  run_call-Keeps r target payload = (ground arith, ground arith)

  apply_command-Keeps :
      (memory : Memory) (r : Replay) (b : CommandBuffer) (buffer : ℕ) (c : Command)
      (target : Handle) (op : Op)
      → Keeps r (apply_command callback memory r b buffer c target op)
  unfolding apply_command
  apply_command-Keeps memory r b buffer c target Op.create = (refl, refl)
  apply_command-Keeps memory r b buffer c target Op.clone = (refl, refl)
  apply_command-Keeps memory r b buffer c target Op.destroy = with_result-Keeps r _
  apply_command-Keeps memory r b buffer c target Op.add = with_result-Keeps r _
  apply_command-Keeps memory r b buffer c target Op.remove = with_result-Keeps r _
  apply_command-Keeps memory r b buffer c target Op.set_value =
      write_through-Keeps r target c.type 0 (take c.payload_size (drop c.payload_offset b.payload))
        _
  apply_command-Keeps memory r b buffer c target Op.enable = enable-Keeps _ r _
  apply_command-Keeps memory r b buffer c target Op.mark =
      with_result-Keeps r (some (set_mark r.world target c.new_mark))
  apply_command-Keeps memory r b buffer c target Op.link =
      let referenced =
        if is_pending c.reference then created_by r buffer c.reference else Handle.invalid in
      write_through-Keeps r target c.type c.payload_offset (handle_bytes referenced) _
  apply_command-Keeps memory r b buffer c target Op.call = run_call-Keeps r target _
  apply_command-Keeps memory r b buffer c target Op.managed_state =
      write_state-Keeps r target c.managed _

  apply_alive-Keeps :
      (memory : Memory) (r : Replay) (b : CommandBuffer) (buffer : ℕ) (c : Command) (op : Op)
      → Keeps r (apply_alive callback memory r b buffer c op)
  unfolding apply_alive
  apply_alive-Keeps memory r b buffer c op =
      let target = target_of r buffer c in
      skip-Keeps (not (EntityRegistry.is_alive r.world.entities target)) r
        (apply_command callback memory r b buffer c target op)
        (apply_command-Keeps memory r b buffer c target op)

  replay_op-Keeps :
      (memory : Memory) (r : Replay) (b : CommandBuffer) (buffer : ℕ) (c : Command) (op : Op)
      → Keeps r (replay_op callback memory r b buffer c op)
  unfolding replay_op
  replay_op-Keeps memory r b buffer c Op.create =
      elim (Option-cases (get_elem? b.create_masks c.pending)) [
        | inl e ↦ rw (e, replay_op) tt
        | inr (mask, e) ↦ rw (e, replay_op) (fill_slot-Keeps r buffer c.pending _)
      ]
  replay_op-Keeps memory r b buffer c Op.clone = fill_slot-Keeps r buffer c.pending _
  replay_op-Keeps memory r b buffer c Op.destroy = apply_alive-Keeps memory r b buffer c Op.destroy
  replay_op-Keeps memory r b buffer c Op.add = apply_alive-Keeps memory r b buffer c Op.add
  replay_op-Keeps memory r b buffer c Op.remove = apply_alive-Keeps memory r b buffer c Op.remove
  replay_op-Keeps memory r b buffer c Op.set_value =
      apply_alive-Keeps memory r b buffer c Op.set_value
  replay_op-Keeps memory r b buffer c Op.enable = apply_alive-Keeps memory r b buffer c Op.enable
  replay_op-Keeps memory r b buffer c Op.mark = apply_alive-Keeps memory r b buffer c Op.mark
  replay_op-Keeps memory r b buffer c Op.managed_state =
      apply_alive-Keeps memory r b buffer c Op.managed_state
  replay_op-Keeps memory r b buffer c Op.link = apply_alive-Keeps memory r b buffer c Op.link
  replay_op-Keeps memory r b buffer c Op.call = apply_alive-Keeps memory r b buffer c Op.call

  -- One command is one count.
  replay_ref-counts :
      (memory : ℕ → Memory) (buffers : List CommandBuffer) (r : Replay) (ref : Ref) (next : Replay)
      → r.applied + r.skipped + 1 < word
      → replay_ref callback memory buffers r ref ≡ some next
      → next.applied + next.skipped ≡ r.applied + r.skipped + 1
  unfolding replay_ref counted
  replay_ref-counts memory buffers r ref next small h =
      elim (Option-cases (get_elem? buffers ref.buffer)) [
        | inl e ↦ ground arith
        | inr (b, e) ↦ elim (Option-cases (get_elem? b.commands ref.command)) [
          | inl f ↦ ground arith
          | inr (c, f) ↦
              let keeps = replay_op-Keeps (memory (r.applied + r.skipped)) r b ref.buffer c c.op in
              elim (Option-cases
                (replay_op callback (memory (r.applied + r.skipped)) r b ref.buffer c c.op)) [
                  | inl g ↦ ground arith
                  | inr ((done, after), g) ↦
                      let same : (after.applied ≡ r.applied) × (after.skipped ≡ r.skipped) =
                        subst (Keeps r) g keeps in
                      ground (arith, same.0, same.1)
                ]
        ]
      ]

  replay_refs-counts :
      (memory : ℕ → Memory) (buffers : List CommandBuffer) (refs : List Ref) (r last : Replay)
      → r.applied + r.skipped + length refs < word
      → replay_refs callback memory buffers refs r ≡ some last
      → last.applied + last.skipped ≡ r.applied + r.skipped + length refs
  unfolding replay_refs
  replay_refs-counts memory buffers [] r last small h = ground arith
  replay_refs-counts memory buffers (ref ∷ refs) r last small h =
      elim (Option-cases (replay_ref callback memory buffers r ref)) [
        | inl e ↦ ground arith
        | inr (next, e) ↦
            let one = replay_ref-counts memory buffers r ref next (omega (arith, small)) e in
            ground (arith, one, replay_refs-counts memory buffers refs next last)
      ]

  clear-count : (buffers : List CommandBuffer) → command_count (map clear buffers) ≡ 0
  unfolding clear
  clear-count [] = refl
  clear-count (b ∷ bs) = omega (arith, clear-count bs)

  -- Of fewer than 2^32 commands, when no assertion fails, every command of every buffer was counted
  -- either as applied or as skipped, whatever the called functions did to the world and to its pool
  -- of managed objects, and whatever the allocator did; and the buffers are left without commands.
  pub replay_commands-counts :
      (memory : ℕ → Memory) (w : World) (managed : Pool) (buffers : List CommandBuffer)
      (last : Replay) (cleared : List CommandBuffer)
      → command_count buffers < word
      → replay_commands callback memory w managed buffers ≡ some (last, cleared)
      → (last.applied + last.skipped ≡ command_count buffers) × (command_count cleared ≡ 0)
  unfolding replay_commands replay_order
  replay_commands-counts memory w managed buffers last cleared small h =
      let start : Replay = record {
        world = w;
        managed = managed;
        created =
            map (λ (b : CommandBuffer). replicate (length b.create_masks) Handle.invalid) buffers;
        applied = 0;
        skipped = 0;
      } in
      elim (Option-cases
        (replay_refs callback memory buffers (stable_sort (gather 0 buffers)) start)) [
          | inl e ↦ ground arith
          | inr (r, e) ↦
              let sizes = length-stable_sort (gather 0 buffers) in
              let total = length-gather 0 buffers in
              let all =
                replay_refs-counts memory buffers (stable_sort (gather 0 buffers)) start r
                  (omega (arith, small, sizes, total)) e in
              (ground (arith, all, sizes, total), ground (arith, clear-count buffers))
        ]
