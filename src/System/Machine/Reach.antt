-- ===== src/System/Machine/Reach.antt =====
-- The states that a program can reach, and what holds in all of them.
use voodoo.Prelude.{ℕ, ◌≡◌, ◌≢◌, refl, sym, ap, ◌∙◌, some, true, if◌then◌else◌, ◌==◌, arith}
use voodoo.System.Types.{Core, free, initial_core, message, empty_message, ok}
use voodoo.System.Table.{lookup, alloc}
use voodoo.System.Table.Alloc.{HasRoom, Allocated, alloc-Allocated}
use voodoo.System.Table.Sound.{IsSound, same_table-IsSound}
use voodoo.System.Table.Free.{lookup-get_or}
use voodoo.System.Messages.{Callbacks, create_message}
use voodoo.System.Buffers.{Os}
use voodoo.System.Machine.{
  Call, init, pump_events_call, close_call, create_message_pipe_call, create_message_call,
  append_message_data_call, get_message_data_call, serialize_message_call,
  reserve_message_capacity_call, set_message_context_call, write_message_call, read_message_call,
  set_quota_call, fuse_message_pipes_call, create_trap_call, add_trigger_call, remove_trigger_call,
  arm_trap_call, create_data_pipe_call, write_data_call, read_data_call, begin_write_data_call,
  end_write_data_call, begin_read_data_call, end_read_data_call, create_shared_buffer_call,
  duplicate_buffer_handle_call, map_buffer_call, unmap_buffer_call, wrap_platform_handle_call,
  unwrap_platform_handle_call, wrap_region_call, unwrap_region_call, step,
}
use voodoo.System.Machine.Preserve.Traps.{
  create_trap-IsSound, add_trigger-IsSound, remove_trigger-IsSound, arm_trap-IsSound,
  pump_events-IsSound,
}
use voodoo.System.Machine.Preserve.Messages.{
  KeepSound, create_message-IsSound, append_message_data-IsSound, get_message_data-IsSound,
  reserve_message_capacity-IsSound, serialize_message-IsSound, set_message_context-IsSound,
}
use voodoo.System.Machine.Preserve.Pipes.{
  create_message_pipe-IsSound, write_message-IsSound, read_message-IsSound, set_quota-IsSound,
}
use voodoo.System.Machine.Preserve.Fuse.{fuse_message_pipes-IsSound}
use voodoo.System.Machine.Preserve.Data.{
  create_data_pipe-IsSound, write_data-IsSound, read_data-IsSound, begin_write-IsSound,
  end_write-IsSound, begin_read-IsSound, end_read-IsSound,
}
use voodoo.System.Machine.Preserve.Buffers.{
  create_shared_buffer-IsSound, duplicate-IsSound, map_buffer-IsSound, unmap_buffer-IsSound,
  wrap_platform_handle-IsSound, unwrap_platform_handle-IsSound, wrap_region-IsSound,
  unwrap_region-IsSound, close-IsSound,
}

-- The states after any calls, as long as there was a handle to spare at each.
pub data Reachable (os : Os) (cb : Callbacks) : Core → Type 0 where
  start : Reachable os cb initial_core
  next :
      {c : Core}
      → Reachable os cb c
      → HasRoom c
      → (call : Call) → Reachable os cb (step os cb c call)

initial-IsSound : IsSound initial_core
initial-IsSound = record {
  table = record { nonempty = omega arith; unused = refl; vacancies = λ h. ground arith };
  listed = λ h. ground arith;
}

module _ (os : Os) (cb : Callbacks) (keeps : KeepSound cb) where
  step-IsSound : (call : Call) (c : Core) → IsSound c → HasRoom c → IsSound (step os cb c call)
  unfolding step
  step-IsSound init c v r = same_table-IsSound v refl refl refl
  step-IsSound pump_events_call c v r = pump_events-IsSound cb.handle keeps.handle c v
  step-IsSound (close_call h) c v r = close-IsSound os.host cb keeps h c v
  step-IsSound create_message_pipe_call c v r = create_message_pipe-IsSound c v
  step-IsSound create_message_call c v r = create_message-IsSound c v
  step-IsSound (append_message_data_call h n l o) c v r = append_message_data-IsSound h n l o c v
  step-IsSound (get_message_data_call h m) c v r = get_message_data-IsSound h m c v
  step-IsSound (serialize_message_call h) c v r = serialize_message-IsSound cb keeps h c v
  step-IsSound (reserve_message_capacity_call h n) c v r = reserve_message_capacity-IsSound h n c v
  step-IsSound (set_message_context_call h x s d) c v r =
      set_message_context-IsSound cb keeps h x s d c v
  step-IsSound (write_message_call p h) c v r = write_message-IsSound cb keeps p h c v
  step-IsSound (read_message_call p) c v r = read_message-IsSound p c v
  step-IsSound (set_quota_call h t l) c v r = set_quota-IsSound h t l c v
  step-IsSound (fuse_message_pipes_call h k) c v r = fuse_message_pipes-IsSound h k c v
  step-IsSound (create_trap_call f) c v r = create_trap-IsSound f c v r
  step-IsSound (add_trigger_call h w s o x) c v r = add_trigger-IsSound h w s o x c v
  step-IsSound (remove_trigger_call h x) c v r = remove_trigger-IsSound h x c v
  step-IsSound (arm_trap_call h) c v r = arm_trap-IsSound h c v
  step-IsSound (create_data_pipe_call o) c v r = create_data_pipe-IsSound o c v
  step-IsSound (write_data_call h l) c v r = write_data-IsSound h c v l
  step-IsSound (read_data_call h n) c v r = read_data-IsSound h c v n
  step-IsSound (begin_write_data_call h n) c v r = begin_write-IsSound h c v n
  step-IsSound (end_write_data_call h n) c v r = end_write-IsSound h c v n
  step-IsSound (begin_read_data_call h n) c v r = begin_read-IsSound h c v n
  step-IsSound (end_read_data_call h n) c v r = end_read-IsSound h c v n
  step-IsSound (create_shared_buffer_call n) c v r = create_shared_buffer-IsSound n c v
  step-IsSound (duplicate_buffer_handle_call h) c v r = duplicate-IsSound h c v
  step-IsSound (map_buffer_call h o n) c v r = map_buffer-IsSound os h o n c v
  step-IsSound (unmap_buffer_call p) c v r = unmap_buffer-IsSound os.host p c v
  step-IsSound (wrap_platform_handle_call t n) c v r = wrap_platform_handle-IsSound os.host t n c v
  step-IsSound (unwrap_platform_handle_call h) c v r = unwrap_platform_handle-IsSound h c v
  step-IsSound (wrap_region_call t l n g k m) c v r = wrap_region-IsSound os.host t l n g k m c v
  step-IsSound (unwrap_region_call h n) c v r = unwrap_region-IsSound os.host h n c v

  -- After any calls, in any order and with any arguments, the free list holds each free slot but 0
  -- exactly once and nothing else, and the list of traps each live trap exactly once and nothing
  -- else, if the callbacks keep it so and there was a handle to spare at each call.
  pub Reachable-IsSound : {c : Core} → Reachable os cb c → IsSound c
  Reachable-IsSound start = initial-IsSound
  Reachable-IsSound (next {c} p room call) = step-IsSound call c (Reachable-IsSound p) room

  -- In a reachable state with a handle to spare, if the callbacks keep states sound, WhpCreateMessage
  -- gives a handle that is not 0 and named nothing, which then names an empty message, and every
  -- other handle names what it named before.
  pub create_message-fresh :
      {c : Core}
      → Reachable os cb c
      → HasRoom c
      → (h : ℕ) × ((create_message true c).0 ≡ ok)
        × ((create_message true c).1 ≡ some h)
        × (h ≢ 0)
        × (lookup c h ≡ free)
        × ((j : ℕ)
            → lookup (create_message true c).2 j
              ≡ (if j == h then message empty_message else lookup c j))
  unfolding create_message
  create_message-fresh {c} p room = (
    (alloc c (message empty_message)).0,
    refl,
    refl,
    new.not_null,
    lookup-get_or c _ v.table.unused ∙ new.was_free,
    λ j.
        lookup-get_or _ j after.table.unused
        ∙ new.slot j
        ∙ ap (λ s. if j == (alloc c (message empty_message)).0 then message empty_message else s)
            (sym (lookup-get_or c j v.table.unused)),
  )
    where
      v : IsSound c
      v = Reachable-IsSound p

      new : Allocated c (message empty_message) (alloc c (message empty_message))
      new = alloc-Allocated c (message empty_message) v.table room

      after : IsSound (alloc c (message empty_message)).1
      after = create_message-IsSound c v
