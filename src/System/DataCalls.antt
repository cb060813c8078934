-- ===== src/System/DataCalls.antt =====
-- The calls of core.cc on data pipes: the look-up of the handle, the operation of
-- System.DataPipe on the state that it names, and CollectTrapEvents where the code calls it.
use voodoo.Prelude.{
  ℕ, List, [], ◌∷◌, ◌++◌, Bool, true, false, Option, none, some, if◌then◌else◌, length,
}
use voodoo.System.Types.{
  Core, Slot, data_pipe_producer, data_pipe_consumer, DataPipeState, WhpResult, ok,
  invalid_argument,
}
use voodoo.System.Table.{lookup, alloc}
use voodoo.System.Signals.{data_pipe_at}
use voodoo.System.Traps.{collect_trap_events}
use voodoo.System.Close.{put_data_pipe}
use voodoo.System.DataPipe.{
  create, write_data, read_data, begin_write, end_write, begin_read, end_read,
}

abbrev pub producer_of : Slot → Option ℕ
producer_of (data_pipe_producer e) = some e.state
producer_of _ = none

abbrev pub consumer_of : Slot → Option ℕ
consumer_of (data_pipe_consumer e) = some e.state
consumer_of _ = none

-- The state is stored, and a call that moved bytes collects the trap events.
abbrev pub stored : Core → ℕ → WhpResult → DataPipeState → Core
stored c i ok s = collect_trap_events (put_data_pipe c i s)
stored c i _ s = put_data_pipe c i s

-- WhpCreateDataPipe
unfoldable pub whp_create_data_pipe :
    Option (ℕ × ℕ) → Bool → Core → WhpResult × Option (ℕ × ℕ) × Core
whp_create_data_pipe options present c =
    let i = length c.data_pipes in
    let c0 = record c { data_pipes = c.data_pipes ++ create options ∷ [] } in
    let (p, c1) = alloc c0 (data_pipe_producer (record { state = i; producer = true })) in
    let (q, c2) = alloc c1 (data_pipe_consumer (record { state = i; producer = false })) in
    if present then (ok, some (p, q), c2) else (invalid_argument, none, c)

-- WhpWriteData
unfoldable pub whp_write_data : ℕ → List ℕ → Bool → Core → WhpResult × Option ℕ × Core
whp_write_data h elements present c = elim (producer_of (lookup c h)) [
  | none ↦ (invalid_argument, none, c)
  | some i ↦
      let (result, n, s) = write_data (data_pipe_at c i) elements in
      if present then (result, n, stored c i result s) else (invalid_argument, none, c)
]

-- WhpReadData
unfoldable pub whp_read_data : ℕ → ℕ → Bool → Core → WhpResult × List ℕ × Option ℕ × Core
whp_read_data h want present c = elim (consumer_of (lookup c h)) [
  | none ↦ (invalid_argument, [], none, c)
  | some i ↦
      let (result, out, n, s) = read_data (data_pipe_at c i) want in
      if present then (result, out, n, stored c i result s) else (invalid_argument, [], none, c)
]

-- WhpBeginWriteData
unfoldable pub whp_begin_write_data : ℕ → ℕ → Bool → Core → WhpResult × Option ℕ × Option ℕ × Core
whp_begin_write_data h num_bytes present c = elim (producer_of (lookup c h)) [
  | none ↦ (invalid_argument, none, none, c)
  | some i ↦
      let (result, p, n, s) = begin_write (data_pipe_at c i) num_bytes in
      if present then (result, p, n, put_data_pipe c i s) else (invalid_argument, none, none, c)
]

-- WhpEndWriteData
unfoldable pub whp_end_write_data : ℕ → ℕ → Core → WhpResult × Core
whp_end_write_data h num_bytes_written c = elim (producer_of (lookup c h)) [
  | none ↦ (invalid_argument, c)
  | some i ↦
      let (result, s) = end_write (data_pipe_at c i) num_bytes_written in
      (result, stored c i result s)
]

-- WhpBeginReadData
unfoldable pub whp_begin_read_data : ℕ → ℕ → Bool → Core → WhpResult × Option ℕ × Option ℕ × Core
whp_begin_read_data h num_bytes present c = elim (consumer_of (lookup c h)) [
  | none ↦ (invalid_argument, none, none, c)
  | some i ↦
      let (result, p, n, s) = begin_read (data_pipe_at c i) num_bytes in
      if present then (result, p, n, put_data_pipe c i s) else (invalid_argument, none, none, c)
]

-- WhpEndReadData
unfoldable pub whp_end_read_data : ℕ → ℕ → Core → WhpResult × Core
whp_end_read_data h num_bytes_read c = elim (consumer_of (lookup c h)) [
  | none ↦ (invalid_argument, c)
  | some i ↦
      let (result, s) = end_read (data_pipe_at c i) num_bytes_read in (result, stored c i result s)
]
