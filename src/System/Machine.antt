-- ===== src/System/Machine.antt =====
-- The calls that a program makes of core.cc, one after another, as a transition system.
pub mod Preserve
pub mod Reach
use voodoo.Prelude.{ℕ, List, [], ◌∷◌, Bool, true, false, Option, none, some}
use voodoo.System.Types.{Core, SharedBufferObj, Address, WhpResult, ok}
use voodoo.System.Traps.{
  create_trap, add_trigger, remove_trigger, arm_trap, pump_events, collect_trap_events,
}
use voodoo.System.Messages.{
  Callbacks, create_message, append_message_data, get_message_data, HandleRoom, serialize_message,
  reserve_message_capacity, set_message_context,
}
use voodoo.System.Pipes.{
  create_message_pipe, write_message, read_message, set_quota, fuse_message_pipes,
}
use voodoo.System.Platform.{wrap_platform_handle, unwrap_platform_handle}
use voodoo.System.Buffers.{
  Os, create_shared_buffer, duplicate_buffer_handle, map_buffer, unmap_buffer, wrap_region,
  unwrap_region,
}
use voodoo.System.Close.{close}
use voodoo.System.DataCalls.{
  whp_create_data_pipe, whp_write_data, whp_read_data, whp_begin_write_data, whp_end_write_data,
  whp_begin_read_data, whp_end_read_data,
}

-- The calls that change the core, with their arguments. Null out parameters are refused before
-- anything changes, so the calls here have theirs.
pub data Call : Type 0 where
  init pump_events_call : Call
  close_call : ℕ → Call
  create_message_pipe_call create_message_call : Call
  append_message_data_call : ℕ → ℕ → List ℕ → Option ℕ → Call
  get_message_data_call : ℕ → HandleRoom → Call
  serialize_message_call : ℕ → Call
  reserve_message_capacity_call : ℕ → ℕ → Call
  set_message_context_call : ℕ → ℕ → Option ℕ → Option ℕ → Call
  write_message_call : ℕ → ℕ → Call
  read_message_call : ℕ → Call
  set_quota_call : ℕ → ℕ → ℕ → Call
  fuse_message_pipes_call : ℕ → ℕ → Call
  create_trap_call : Option ℕ → Call
  add_trigger_call : ℕ → ℕ → ℕ → ℕ → ℕ → Call
  remove_trigger_call : ℕ → ℕ → Call
  arm_trap_call : ℕ → Call
  create_data_pipe_call : Option (ℕ × ℕ) → Call
  write_data_call : ℕ → List ℕ → Call
  read_data_call begin_write_data_call end_write_data_call : ℕ → ℕ → Call
  begin_read_data_call end_read_data_call : ℕ → ℕ → Call
  create_shared_buffer_call duplicate_buffer_handle_call : ℕ → Call
  map_buffer_call : ℕ → ℕ → ℕ → Call
  unmap_buffer_call : Address → Call
  wrap_platform_handle_call : ℕ → ℕ → Call
  unwrap_platform_handle_call : ℕ → Call
  wrap_region_call : List ℕ → List ℕ → ℕ → ℕ → ℕ → ℕ → Call
  unwrap_region_call : ℕ → ℕ → Call

module _ (os : Os) (cb : Callbacks) where
  -- The core after a call.
  unfoldable pub step : Core → Call → Core
  step c init = record c { inited = true }
  step c pump_events_call = pump_events cb.handle c
  step c (close_call h) = (close os.host cb h c).1
  step c create_message_pipe_call = (create_message_pipe true c).2
  step c create_message_call = (create_message true c).2
  step c (append_message_data_call h n handles options) =
      (append_message_data h n handles options c).2
  step c (get_message_data_call h r) = (get_message_data h r c).1
  step c (serialize_message_call h) = (serialize_message cb h c).1
  step c (reserve_message_capacity_call h n) = (reserve_message_capacity h n c).2
  step c (set_message_context_call h context s d) = (set_message_context cb h context s d c).1
  step c (write_message_call pipe h) = (write_message cb pipe h c).1
  step c (read_message_call pipe) = (read_message pipe true c).2
  step c (set_quota_call h type limit) = (set_quota h type limit c).1
  step c (fuse_message_pipes_call h0 h1) = (fuse_message_pipes h0 h1 c).1
  step c (create_trap_call handler) = (create_trap handler true c).2
  step c (add_trigger_call h watched signals condition context) =
      (add_trigger h watched signals condition context c).1
  step c (remove_trigger_call h context) = (remove_trigger h context c).1
  step c (arm_trap_call h) = (arm_trap h true c).2
  step c (create_data_pipe_call options) = (whp_create_data_pipe options true c).2
  step c (write_data_call h elements) = (whp_write_data h elements true c).2
  step c (read_data_call h want) = (whp_read_data h want true c).3
  step c (begin_write_data_call h n) = (whp_begin_write_data h n true c).3
  step c (end_write_data_call h n) = (whp_end_write_data h n c).1
  step c (begin_read_data_call h n) = (whp_begin_read_data h n true c).3
  step c (end_read_data_call h n) = (whp_end_read_data h n c).1
  step c (create_shared_buffer_call n) = (create_shared_buffer n true c).2
  step c (duplicate_buffer_handle_call h) = (duplicate_buffer_handle h true c).2
  step c (map_buffer_call h offset n) = (map_buffer os h offset n true c).2
  step c (unmap_buffer_call p) = (unmap_buffer os.host p c).1
  step c (wrap_platform_handle_call type value) = (wrap_platform_handle os.host type value true c).2
  step c (unwrap_platform_handle_call h) = (unwrap_platform_handle h true c).2
  step c (wrap_region_call types values n high low mode) =
      (wrap_region os.host types values n high low mode true c).2
  step c (unwrap_region_call h n) = (unwrap_region os.host h true true n c).3

  unfoldable pub run : Core → List Call → Core
  unfolding step
  run c [] = c
  run c (call ∷ calls) = run (step c call) calls
