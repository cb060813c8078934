-- ===== src/System/DataPipe/Queue.antt =====
-- What a data pipe promises its two ends: a bounded queue of bytes.
use voodoo.Prelude.{
  ℕ, ◌-◌, ◌%◌, List, [], ◌++◌, take, drop, min, length, Option, none, some, Bool, not, ◌==◌,
  if◌then◌else◌,
}
use voodoo.System.Types.{
  DataPipeState, WhpResult, ok, invalid_argument, failed_precondition, should_wait,
}
use voodoo.System.DataPipe.Ring.{contents}

-- The pipe as its ends see it.
pub record Queue : Type 0 where
  pub element : ℕ
  pub limit : ℕ
  pub unread : List ℕ
  pub no_producer : Bool
  pub no_consumer : Bool

abbrev pub round : ℕ → ℕ → ℕ
round e n = n - n % e

unfoldable pub put_whole : Queue → List ℕ → ℕ → WhpResult × Option ℕ × Queue
put_whole q elements n =
    if n == 0
    then (should_wait, some 0, q)
    else (ok, some n, record q { unread = q.unread ++ take n elements })

-- A write appends whole elements for as long as there is room.
unfoldable pub put : Queue → List ℕ → WhpResult × Option ℕ × Queue
unfolding put_whole
put q elements =
    if q.no_consumer
    then (failed_precondition, none, q)
    else if not (length elements % q.element == 0)
    then (invalid_argument, none, q)
    else put_whole q elements (round q.element (min (length elements) (q.limit - length q.unread)))

unfoldable pub get_whole : Queue → ℕ → WhpResult × List ℕ × Option ℕ × Queue
get_whole q n =
    if n == 0
    then (if q.no_producer then failed_precondition else should_wait, [], some 0, q)
    else (ok, take n q.unread, some n, record q { unread = drop n q.unread })

-- A read takes whole elements from the front.
unfoldable pub get : Queue → ℕ → WhpResult × List ℕ × Option ℕ × Queue
unfolding get_whole
get q want =
    if not (want % q.element == 0)
    then (invalid_argument, [], none, q)
    else get_whole q (round q.element (min want (length q.unread)))

abbrev pub view : DataPipeState → Queue
view s = record {
  element = s.element_size;
  limit = s.capacity;
  unread = contents s;
  no_producer = s.producer_closed;
  no_consumer = s.consumer_closed;
}
