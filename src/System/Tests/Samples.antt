-- ===== src/System/Tests/Samples.antt =====
-- The cores and the callbacks that the examples run on.
use voodoo.Prelude.{List, [], ◌∷◌, true, none, some, refl, arith}
use voodoo.System.Types.{
  Core, free, message_pipe, message, trap, MessageObj, empty_message, TrapObj, end0, end1, new_pipe,
  initial_core, signal_readable, condition_satisfied, PipeEnd, PipeState, Slot,
}
use voodoo.System.Table.Sound.{IsSound}
use voodoo.System.Messages.{Callbacks, append_message_data}
use voodoo.System.Platform.{posix}
use voodoo.System.Buffers.{Os}
use voodoo.System.Machine.Preserve.Messages.{KeepSound, append_message_data-IsSound}

abbrev pub host_os : Os
host_os = record { host = posix; map_view = λ b. none }

-- A serializer that appends three bytes and commits nothing; handlers that do nothing.
abbrev pub callbacks : Callbacks
callbacks = record {
  serialize = λ f x h c. (append_message_data h 3 [] none c).2;
  destroy = λ f x c. c;
  handle = λ f e c. c;
}

pub callbacks-KeepSound : KeepSound callbacks
callbacks-KeepSound = record {
  serialize = λ f x h c v. append_message_data-IsSound h 3 [] none c v;
  destroy = λ f x c v. v;
  handle = λ f e c v. v;
}

-- A message of three bytes, ready to be sent.
abbrev pub hello : MessageObj
hello = record empty_message { bytes = 104 ∷ 105 ∷ 33 ∷ []; committed = true }

abbrev pub left : PipeEnd
left = record { state = 0; side = end0 }

abbrev pub right : PipeEnd
right = record { state = 0; side = end1 }

-- A trap that waits for handle 2, the right end, to be readable.
abbrev pub watcher : TrapObj
watcher = record {
  handler = some 7;
  triggers =
      record {
        watched = 2;
        signals = signal_readable;
        condition = condition_satisfied;
        context = 9;
      }
      ∷ [];
  armed = true;
}

-- The two ends of a pipe, a message, and the trap.
abbrev pub office_slots : List Slot
office_slots = free ∷ message_pipe left ∷ message_pipe right ∷ message hello ∷ trap watcher ∷ []

abbrev pub office : Core
office = record initial_core { slots = office_slots; traps = 4 ∷ []; pipes = new_pipe ∷ [] }

-- The same where a message waits at the right end.
abbrev pub busy_pipe : PipeState
busy_pipe = record new_pipe { queues = record { first = []; second = hello ∷ [] } }

abbrev pub busy_office : Core
busy_office = record office { pipes = busy_pipe ∷ [] }

pub office-IsSound : IsSound office
office-IsSound = record {
  table = record { nonempty = omega arith; unused = refl; vacancies = λ h. ground arith };
  listed = λ h. ground arith;
}

pub busy_office-IsSound : IsSound busy_office
busy_office-IsSound = record {
  table = record { nonempty = omega arith; unused = refl; vacancies = λ h. ground arith };
  listed = λ h. ground arith;
}
