-- ===== src/System/Tests/Rings.antt =====
-- The theorems on data pipes at a pipe of eight bytes that has gone round its end.
use voodoo.Prelude.{
  ◌+◌, ◌-◌, ◌^◌, ◌<◌, ◌≤◌, ◌≡◌, refl, List, [], ◌∷◌, ◌++◌, take, length, arith, none, some, true,
  false,
}
use voodoo.System.Types.{
  Core, free, data_pipe_producer, data_pipe_consumer, initial_core, DataPipeState, new_data_pipe,
  ok, invalid_argument, failed_precondition,
}
use voodoo.System.DataPipe.{write_data, read_data, begin_write, begin_read, end_write, end_read}
use voodoo.System.DataPipe.Ring.{IsRing, contents}
use voodoo.System.DataPipe.Queue.{put, get, view}
use voodoo.System.DataPipe.Refine.{write_data_refines, read_data_refines}
use voodoo.System.DataPipe.Ends.{
  writes, reads, closes_producer, PipeCall, Ends, run_calls, run_queue, queue_write, queue_read,
  queue_close_producer,
}
use voodoo.System.DataPipe.Runs.{run_pipe_refines}
use voodoo.System.Table.{lookup}
use voodoo.System.Platform.{posix}
use voodoo.System.Tests.Samples.{callbacks}
use voodoo.System.DataPipe.TwoPhase.{
  begin_write_bounds, begin_read_bounds, two_phase_write_lem, overwrite,
}
use voodoo.System.DataPipe.Lent.{end_read_after_read_data}

-- Eight bytes of storage, elements of two, four bytes unread from index 6 on.
abbrev round_ring : DataPipeState
round_ring = record new_data_pipe {
  element_size = 2;
  capacity = 8;
  buf = 3 ∷ 4 ∷ 0 ∷ 0 ∷ 0 ∷ 0 ∷ 1 ∷ 2 ∷ [];
  r = 6;
  w = 2;
  available = 4;
}

round_ring-IsRing : IsRing round_ring
round_ring-IsRing = record {
  sized = refl;
  element_pos = omega arith;
  word = omega arith;
  r_in = omega arith;
  behind = refl;
  fits = omega arith;
}

-- The same with the bytes at the start.
abbrev straight_ring : DataPipeState
straight_ring = record round_ring { r = 0; w = 4 }

straight_ring-IsRing : IsRing straight_ring
straight_ring-IsRing = record {
  sized = refl;
  element_pos = omega arith;
  word = omega arith;
  r_in = omega arith;
  behind = refl;
  fits = omega arith;
}

abbrev calls : List PipeCall
calls =
    reads 2
    ∷ writes (5 ∷ 6 ∷ 7 ∷ 8 ∷ [])
    ∷ reads 3
    ∷ reads 6
    ∷ closes_producer
    ∷ reads 2
    ∷ closes_producer
    ∷ []

-- A core with the two handles of that pipe.
abbrev ring_core : Core
ring_core = record initial_core {
  slots =
      free
      ∷ data_pipe_producer (record { state = 0; producer = true })
      ∷ data_pipe_consumer (record { state = 0; producer = false })
      ∷ [];
  data_pipes = round_ring ∷ [];
}

ring_core-Ends : Ends 1 2 0 round_ring ring_core
unfolding lookup
ring_core-Ends = record {
  sound = record {
    table = record { nonempty = omega arith; unused = refl; vacancies = λ h. ground arith };
    listed = λ h. ground arith;
  };
  stands = omega arith;
  at = refl;
  ring = round_ring-IsRing;
  producer = refl;
  consumer = refl;
}

run_pipe_refines_example :
    run_calls posix callbacks 1 2 ring_core calls ≡ run_queue (view round_ring) calls
run_pipe_refines_example =
    run_pipe_refines posix callbacks 1 2 0 (λ e. absurd (omega arith)) calls round_ring ring_core
      ring_core-Ends

-- What the run answers.
run_queue-calls :
    run_queue (view round_ring) calls
    ≡ (ok, 1 ∷ 2 ∷ [], some 2)
      ∷ (ok, [], some 4)
      ∷ (invalid_argument, [], none)
      ∷ (ok, 3 ∷ 4 ∷ 5 ∷ 6 ∷ 7 ∷ 8 ∷ [], some 6)
      ∷ (ok, [], none)
      ∷ (failed_precondition, [], some 0)
      ∷ (invalid_argument, [], none)
      ∷ []
unfolding run_queue queue_write queue_read queue_close_producer put get
run_queue-calls = refl

write_data_refines_example :
    let (result, num_bytes, s') = write_data round_ring (5 ∷ 6 ∷ 7 ∷ 8 ∷ 9 ∷ 10 ∷ []) in
    ((result, num_bytes, view s') ≡ put (view round_ring) (5 ∷ 6 ∷ 7 ∷ 8 ∷ 9 ∷ 10 ∷ [])) × IsRing s'
write_data_refines_example =
    write_data_refines round_ring (5 ∷ 6 ∷ 7 ∷ 8 ∷ 9 ∷ 10 ∷ []) round_ring-IsRing

read_data_refines_example :
    let (result, out, num_bytes, s') = read_data round_ring 6 in
    ((result, out, num_bytes, view s') ≡ get (view round_ring) 6) × IsRing s'
read_data_refines_example = read_data_refines round_ring 6 round_ring-IsRing

abbrev write_lent : DataPipeState
write_lent = record round_ring { two_phase_write = some 2; two_phase_write_max = 4 }

begun_write : begin_write round_ring 5 ≡ (ok, some 2, some 4, write_lent)
unfolding begin_write
begun_write = refl

begin_write_bounds_example :
    (2 ≡ round_ring.w)
    × (0 < 4)
    × (4 ≤ 5)
    × (2 + 4 ≤ length round_ring.buf)
    × (round_ring.available + 4 ≤ round_ring.capacity)
    × (write_lent ≡ record round_ring { two_phase_write = some 2; two_phase_write_max = 4 })
begin_write_bounds_example =
    begin_write_bounds round_ring write_lent 5 2 4 round_ring-IsRing begun_write

abbrev read_lent : DataPipeState
read_lent = record round_ring { two_phase_read = some 6; two_phase_read_max = 2 }

begun_read : begin_read round_ring 5 ≡ (ok, some 6, some 2, read_lent)
unfolding begin_read
begun_read = refl

begin_read_bounds_example :
    (6 ≡ round_ring.r)
    × (0 < 2)
    × (2 ≤ 5)
    × (6 + 2 ≤ length round_ring.buf)
    × (2 ≤ round_ring.available)
    × (read_lent ≡ record round_ring { two_phase_read = some 6; two_phase_read_max = 2 })
begin_read_bounds_example =
    begin_read_bounds round_ring read_lent 5 6 2 round_ring-IsRing begun_read

-- The ring once four bytes of it have been lent.
abbrev lent_ring : DataPipeState
lent_ring = record round_ring { two_phase_write = some 2; two_phase_write_max = 4 }

lent : begin_write round_ring 5 ≡ (ok, some 2, some 4, lent_ring)
unfolding begin_write
lent = refl

two_phase_write_lem_example :
    let (result, d) =
      end_write (record lent_ring { buf = overwrite lent_ring.buf 2 (5 ∷ 6 ∷ 7 ∷ 8 ∷ []) }) 2 in
    (result ≡ ok)
    × IsRing d
    × (contents d ≡ contents round_ring ++ take 2 (5 ∷ 6 ∷ 7 ∷ 8 ∷ []))
    × (d.two_phase_write ≡ none)
two_phase_write_lem_example =
    two_phase_write_lem round_ring lent_ring 5 2 4 2 (5 ∷ 6 ∷ 7 ∷ 8 ∷ []) round_ring-IsRing lent
      refl (omega arith) refl

end_read_after_read_data_example :
    let (begun, _, lent, s1) = begin_read straight_ring straight_ring.available in
    let (read, _, _, s2) = read_data s1 straight_ring.available in
    let (ended, s3) = end_read s2 straight_ring.available in
    (begun ≡ ok)
    × (lent ≡ some straight_ring.available)
    × (read ≡ ok)
    × (ended ≡ ok)
    × (s3.available ≡ 2 ^ 32 - straight_ring.available)
    × ¬ IsRing s3
end_read_after_read_data_example =
    end_read_after_read_data straight_ring straight_ring-IsRing refl (omega arith) (omega arith)
      refl (omega arith)
