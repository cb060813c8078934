-- ===== src/System/Close.antt =====
-- WhpClose and WhpQueryHandleSignalsState.
pub mod Laws
use voodoo.Prelude.{
  ℕ, List, [], ◌∷◌, Bool, true, false, Option, none, some, if◌then◌else◌, set, get_or,
}
use voodoo.System.Types.{
  Core, Slot, free, message_pipe, message, trap, data_pipe_producer, data_pipe_consumer,
  shared_buffer, platform, PipeEnd, DataPipeEnd, DataPipeState, set_end, WhpResult, ok,
  invalid_argument, WhpHandleSignalsState,
}
use voodoo.System.Table.{lookup, free_handle}
use voodoo.System.Signals.{pipe_at, data_pipe_at, query_locked}
use voodoo.System.Traps.{collect_trap_events, close_trap}
use voodoo.System.Messages.{Callbacks, call_destructor}
use voodoo.System.Pipes.{put_pipe}
use voodoo.System.DataPipe.{close_producer, close_consumer}
use voodoo.System.Platform.{Host, close_native}
use voodoo.System.Buffers.{drop_buffer}

abbrev pub put_data_pipe : Core → ℕ → DataPipeState → Core
put_data_pipe c i s = record c { data_pipes = set c.data_pipes i s }

-- What WhpClose does to the object before its handle is freed.
unfoldable pub close_object : Host → ℕ → Slot → Core → Core
close_object host h free c = c
close_object host h (message_pipe e) c =
    put_pipe c e.state
      (record (pipe_at c e.state) { closed = set_end (pipe_at c e.state).closed e.side true })
close_object host h (message m) c = c
close_object host h (trap t) c = close_trap c h t
close_object host h (data_pipe_producer e) c =
    put_data_pipe c e.state (close_producer (data_pipe_at c e.state))
close_object host h (data_pipe_consumer e) c =
    put_data_pipe c e.state (close_consumer (data_pipe_at c e.state))
close_object host h (shared_buffer b) c = c
close_object host h (platform p) c = if p.owns then close_native host p c else c

-- What the object's destructor does once the slot has let go of it.
abbrev pub destroy_object : Host → Slot → Core → Core
destroy_object host (shared_buffer b) c = drop_buffer host b c
destroy_object host _ c = c

-- The object is closed, its handle freed, and its destructor run.
unfoldable pub release : Host → ℕ → Slot → Core → Core
unfolding close_object
release host h s c = destroy_object host s (free_handle (close_object host h s c) h)

-- The message's own destructor, called with the lock released.
abbrev pub after_close : Callbacks → Slot → Core → Core
after_close cb (message m) c = call_destructor cb m.destructor m.context c
after_close cb _ c = c

abbrev pub close_slot : Host → Callbacks → ℕ → Slot → Core → WhpResult × Core
close_slot host cb h free c = (invalid_argument, c)
close_slot host cb h s c = (ok, after_close cb s (collect_trap_events (release host h s c)))

-- WhpClose
unfoldable pub close : Host → Callbacks → ℕ → Core → WhpResult × Core
unfolding release
close host cb h c = close_slot host cb h (lookup c h) c

abbrev pub query_slot : Core → ℕ → Slot → WhpResult × Option WhpHandleSignalsState
query_slot c h free = (invalid_argument, none)
query_slot c h s = (ok, some (query_locked c h))

-- WhpQueryHandleSignalsState
unfoldable pub query_handle_signals_state :
    ℕ → Bool → Core → WhpResult × Option WhpHandleSignalsState
query_handle_signals_state h present c =
    if present then query_slot c h (lookup c h) else (invalid_argument, none)
