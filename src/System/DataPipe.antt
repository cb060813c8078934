-- ===== src/System/DataPipe.antt =====
-- The data pipes of core.cc, as functions of one DataPipeState: the bodies of WhpCreateDataPipe,
-- WhpWriteData, WhpReadData, WhpBeginWriteData, WhpEndWriteData, WhpBeginReadData and
-- WhpEndReadData behind the look-up of the handle. The buffer that a caller passes to WhpWriteData
-- is the list of its `*num_bytes` bytes. Each gives the result, what is stored through `num_bytes`
-- (`none` if nothing is), and the new state.
pub mod Ring
pub mod Window
pub mod Queue
pub mod Refine
pub mod Ends
pub mod Steps
pub mod Closing
pub mod Created
pub mod Runs
pub mod TwoPhase
pub mod Lent
use voodoo.Prelude.{
  ℕ, zero, suc, ◌-◌, ◌%◌, min, List, [], ◌∷◌, take, Bool, true, false, Option, none, some, ltb,
  ◌==◌, ◌||◌, not, if◌then◌else◌, length, get_or, set, replicate, add32, sub32,
}
use voodoo.System.Types.{
  DataPipeState, new_data_pipe, WhpResult, ok, invalid_argument, failed_precondition, busy,
  should_wait,
}

-- `element_num_bytes` and `capacity_num_bytes` of the options; 0 leaves the default, and so do
-- options that are null.
unfoldable pub create : Option (ℕ × ℕ) → DataPipeState
create none = record new_data_pipe { buf = replicate new_data_pipe.capacity 0 }
create (some (element, capacity)) =
    let cap : ℕ = if capacity == 0 then new_data_pipe.capacity else capacity in
    record new_data_pipe {
      element_size = if element == 0 then new_data_pipe.element_size else element;
      capacity = cap;
      buf = replicate cap 0;
    }

-- `n -= n % element_size`
abbrev pub whole : DataPipeState → ℕ → ℕ
whole s n = n - n % s.element_size

-- The loop of WhpWriteData over the bytes that it stores.
unfoldable pub store : List ℕ → DataPipeState → DataPipeState
store [] s = s
store (x ∷ xs) s = store xs (record s { buf = set s.buf s.w x; w = add32 s.w 1 % s.capacity })

-- The part of WhpWriteData behind its checks, with the `n` that it has computed.
unfoldable pub write_whole : DataPipeState → List ℕ → ℕ → WhpResult × Option ℕ × DataPipeState
write_whole s elements n =
    let s' = store (take n elements) s in
    if n == 0
    then (should_wait, some 0, s)
    else (ok, some n, record s' { available = add32 s'.available n })

unfoldable pub write_data : DataPipeState → List ℕ → WhpResult × Option ℕ × DataPipeState
unfolding store write_whole
write_data s elements =
    let space = sub32 s.capacity s.available in
    let want = length elements in
    if s.consumer_closed
    then (failed_precondition, none, s)
    else if not (want % s.element_size == 0)
    then (invalid_argument, none, s)
    else write_whole s elements (whole s (min want space))

-- The loop of WhpReadData: the bytes that it copies, and the state after it.
unfoldable pub fetch : ℕ → DataPipeState → List ℕ × DataPipeState
fetch zero s = ([], s)
fetch (suc n) s =
    let (rest, s') = fetch n (record s { r = add32 s.r 1 % s.capacity }) in
    (get_or s.buf s.r 0 ∷ rest, s')

-- The part of WhpReadData behind its check, with the `n` that it has computed. The second part is
-- what stands in `elements` afterwards.
unfoldable pub read_whole : DataPipeState → ℕ → WhpResult × List ℕ × Option ℕ × DataPipeState
read_whole s n =
    let (out, s') = fetch n s in
    if n == 0
    then (if s.producer_closed then failed_precondition else should_wait, [], some 0, s)
    else (ok, out, some n, record s' { available = sub32 s'.available n })

unfoldable pub read_data : DataPipeState → ℕ → WhpResult × List ℕ × Option ℕ × DataPipeState
unfolding fetch read_whole
read_data s want =
    if not (want % s.element_size == 0)
    then (invalid_argument, [], none, s)
    else read_whole s (whole s (min want s.available))

-- The second part is the offset that `*buffer` points to.
unfoldable pub begin_write : DataPipeState → ℕ → WhpResult × Option ℕ × Option ℕ × DataPipeState
begin_write s num_bytes =
    let space = sub32 s.capacity s.available in
    let contig = sub32 s.capacity s.w in
    let n = whole s (min (min space contig) num_bytes) in
    elim s.two_phase_write [
      | some p ↦ (busy, none, none, s)
      | none ↦ if n == 0 then (should_wait, none, none, s) else (
        ok,
        some s.w,
        some n,
        record s { two_phase_write = some s.w; two_phase_write_max = n },
      )
    ]

unfoldable pub end_write : DataPipeState → ℕ → WhpResult × DataPipeState
end_write s num_bytes_written = elim s.two_phase_write [
  | none ↦ (failed_precondition, s)
  | some p ↦
      if ltb s.two_phase_write_max num_bytes_written
        || not (num_bytes_written % s.element_size == 0)
      then (invalid_argument, record s { two_phase_write = none })
      else (
        ok,
        record s {
          w = add32 s.w num_bytes_written % s.capacity;
          available = add32 s.available num_bytes_written;
          two_phase_write = none;
        },
      )
]

unfoldable pub begin_read : DataPipeState → ℕ → WhpResult × Option ℕ × Option ℕ × DataPipeState
begin_read s num_bytes =
    let contig = sub32 s.capacity s.r in
    let n = whole s (min (min s.available contig) num_bytes) in
    elim s.two_phase_read [
      | some p ↦ (busy, none, none, s)
      | none ↦
          if n == 0
          then (if s.producer_closed then failed_precondition else should_wait, none, none, s)
          else (
            ok,
            some s.r,
            some n,
            record s { two_phase_read = some s.r; two_phase_read_max = n },
          )
    ]

unfoldable pub end_read : DataPipeState → ℕ → WhpResult × DataPipeState
end_read s num_bytes_read = elim s.two_phase_read [
  | none ↦ (failed_precondition, s)
  | some p ↦
      if ltb s.two_phase_read_max num_bytes_read || not (num_bytes_read % s.element_size == 0)
      then (invalid_argument, record s { two_phase_read = none })
      else (
        ok,
        record s {
          r = add32 s.r num_bytes_read % s.capacity;
          available = sub32 s.available num_bytes_read;
          two_phase_read = none;
        },
      )
]

-- What WhpClose does to the state.
abbrev pub close_producer : DataPipeState → DataPipeState
close_producer s = record s { producer_closed = true }

abbrev pub close_consumer : DataPipeState → DataPipeState
close_consumer s = record s { consumer_closed = true }
