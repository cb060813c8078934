-- ===== src/System/Machine/Preserve/Blocks.antt =====
-- What the proofs share: the slot behind each kind of handle, and the collecting of trap events.
use voodoo.Prelude.{ℕ, ◌≡◌, some, arith}
use voodoo.System.Types.{
  Core, Slot, free, message_pipe, message, trap, data_pipe_producer, data_pipe_consumer,
  shared_buffer, platform, MessageObj, PipeEnd, PlatformObj,
}
use voodoo.System.Table.Sound.{IsSound}
use voodoo.System.Traps.{collect_trap_events}
use voodoo.System.Traps.Frame.{Collected}
use voodoo.System.Traps.Collect.{collect_trap_events-Collected}
use voodoo.System.Messages.{message_of}
use voodoo.System.Pipes.{pipe_of}
use voodoo.System.Platform.{platform_of}
use voodoo.System.Buffers.{buffer_of}

pub collect-IsSound : (c : Core) → IsSound c → IsSound (collect_trap_events c)
collect-IsSound c v =
    let k : Collected c (collect_trap_events c) =
      collect_trap_events-Collected c v.table v.listed in
    record { table = k.table; listed = k.listed }

pub message_of-eq : (s : Slot) (m : MessageObj) → message_of s ≡ some m → s ≡ message m
message_of-eq free m e = cc
message_of-eq (message_pipe a) m e = cc
message_of-eq (message a) m e = ground arith
message_of-eq (trap a) m e = cc
message_of-eq (data_pipe_producer a) m e = cc
message_of-eq (data_pipe_consumer a) m e = cc
message_of-eq (shared_buffer a) m e = cc
message_of-eq (platform a) m e = cc

pub pipe_of-eq : (s : Slot) (p : PipeEnd) → pipe_of s ≡ some p → s ≡ message_pipe p
pipe_of-eq free p e = cc
pipe_of-eq (message_pipe a) p e = ground arith
pipe_of-eq (message a) p e = cc
pipe_of-eq (trap a) p e = cc
pipe_of-eq (data_pipe_producer a) p e = cc
pipe_of-eq (data_pipe_consumer a) p e = cc
pipe_of-eq (shared_buffer a) p e = cc
pipe_of-eq (platform a) p e = cc

pub platform_of-eq : (s : Slot) (p : PlatformObj) → platform_of s ≡ some p → s ≡ platform p
platform_of-eq free p e = cc
platform_of-eq (message_pipe a) p e = cc
platform_of-eq (message a) p e = cc
platform_of-eq (trap a) p e = cc
platform_of-eq (data_pipe_producer a) p e = cc
platform_of-eq (data_pipe_consumer a) p e = cc
platform_of-eq (shared_buffer a) p e = cc
platform_of-eq (platform a) p e = ground arith

pub buffer_of-eq : (s : Slot) (b : ℕ) → buffer_of s ≡ some b → s ≡ shared_buffer b
buffer_of-eq free b e = cc
buffer_of-eq (message_pipe a) b e = cc
buffer_of-eq (message a) b e = cc
buffer_of-eq (trap a) b e = cc
buffer_of-eq (data_pipe_producer a) b e = cc
buffer_of-eq (data_pipe_consumer a) b e = cc
buffer_of-eq (shared_buffer a) b e = ground arith
buffer_of-eq (platform a) b e = cc
