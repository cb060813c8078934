-- ===== src/System/Types.antt =====
-- The data of WASMHolePunch/src/system/core.cc and of include/whp/c/types.h.
-- A `shared_ptr` to an object that several owners reach is an index into a list of the store
-- (pipe states, data pipe states, shared buffers); an object with one owner (a message, a trap, a
-- pipe end) stands where its owner holds it. A function pointer is a number, `none` is null.
use voodoo.Prelude.{ℕ, ◌-◌, ◌^◌, List, [], ◌∷◌, Bool, false, Option, none}

-- WHP_RESULT_*
pub data WhpResult : Type 0 where
  ok cancelled unknown invalid_argument deadline_exceeded not_found already_exists : WhpResult
  permission_denied resource_exhausted failed_precondition aborted out_of_range : WhpResult
  unimplemented internal unavailable data_loss busy should_wait : WhpResult

-- WHP_HANDLE_SIGNAL_*
abbrev pub signal_readable : ℕ
signal_readable = 1

abbrev pub signal_writable : ℕ
signal_writable = 2

abbrev pub signal_peer_closed : ℕ
signal_peer_closed = 4

-- WHP_TRIGGER_CONDITION_*
abbrev pub condition_satisfied : ℕ
condition_satisfied = 0

abbrev pub condition_unsatisfiable : ℕ
condition_unsatisfiable = 1

-- WHP_QUOTA_TYPE_*
abbrev pub quota_message_count : ℕ
quota_message_count = 0

abbrev pub quota_message_size : ℕ
quota_message_size = 1

-- WHP_PLATFORM_HANDLE_TYPE_*
abbrev pub type_file_descriptor : ℕ
type_file_descriptor = 1

abbrev pub type_windows_handle : ℕ
type_windows_handle = 2

abbrev pub type_mach_port : ℕ
type_mach_port = 3

pub record WhpHandleSignalsState : Type 0 where
  pub satisfied_signals : ℕ
  pub satisfiable_signals : ℕ

-- `WhpHandleSignalsState st{}`
abbrev pub no_signals : WhpHandleSignalsState
no_signals = record { satisfied_signals = 0; satisfiable_signals = 0 }

-- Every event has the same `struct_size`, which is left out.
pub record WhpTrapEvent : Type 0 where
  pub flags : ℕ
  pub trigger_context : ℕ
  pub result : WhpResult
  pub signals_state : WhpHandleSignalsState

-- An end of a message pipe, 0 or 1, and `1 - end`.
pub data End : Type 0 where
  end0 end1 : End

abbrev pub peer : End → End
peer end0 = end1
peer end1 = end0

-- An array of two, indexed by an end.
pub record Ends {ℓ} (A : Type ℓ) : Type ℓ where
  pub first : A
  pub second : A

abbrev pub at_end {ℓ} : {A : Type ℓ} → Ends A → End → A
at_end p end0 = p.first
at_end p end1 = p.second

abbrev pub set_end {ℓ} : {A : Type ℓ} → Ends A → End → A → Ends A
set_end p end0 a = record p { first = a }
set_end p end1 a = record p { second = a }

pub record MessageObj : Type 0 where
  pub bytes : List ℕ
  pub handles : List ℕ
  pub committed : Bool
  pub context : ℕ
  pub serializer : Option ℕ
  pub destructor : Option ℕ

abbrev pub empty_message : MessageObj
empty_message = record {
  bytes = [];
  handles = [];
  committed = false;
  context = 0;
  serializer = none;
  destructor = none;
}

pub record PipeEnd : Type 0 where
  pub state : ℕ
  pub side : End

-- The front of each queue is the head of its list.
pub record PipeState : Type 0 where
  pub queues : Ends (List MessageObj)
  pub closed : Ends Bool
  pub quota_count : Ends ℕ
  pub quota_bytes : Ends ℕ

-- ~uint64_t{0}
abbrev pub unlimited : ℕ
unlimited = 2 ^ 64 - 1

abbrev pub new_pipe : PipeState
new_pipe = record {
  queues = record { first = []; second = [] };
  closed = record { first = false; second = false };
  quota_count = record { first = unlimited; second = unlimited };
  quota_bytes = record { first = unlimited; second = unlimited };
}

pub record TrapTrigger : Type 0 where
  pub watched : ℕ
  pub signals : ℕ
  pub condition : ℕ
  pub context : ℕ

pub record TrapObj : Type 0 where
  pub handler : Option ℕ
  pub triggers : List TrapTrigger
  pub armed : Bool

-- A two-phase pointer is its offset into `buf`.
pub record DataPipeState : Type 0 where
  pub element_size : ℕ
  pub capacity : ℕ
  pub buf : List ℕ
  pub r : ℕ
  pub w : ℕ
  pub available : ℕ
  pub producer_closed : Bool
  pub consumer_closed : Bool
  pub two_phase_write : Option ℕ
  pub two_phase_write_max : ℕ
  pub two_phase_read : Option ℕ
  pub two_phase_read_max : ℕ

-- `DataPipeState` as it is made, before its `buf` is sized.
abbrev pub new_data_pipe : DataPipeState
new_data_pipe = record {
  element_size = 1;
  capacity = 65536;
  buf = [];
  r = 0;
  w = 0;
  available = 0;
  producer_closed = false;
  consumer_closed = false;
  two_phase_write = none;
  two_phase_write_max = 0;
  two_phase_read = none;
  two_phase_read_max = 0;
}

pub record DataPipeEnd : Type 0 where
  pub state : ℕ
  pub producer : Bool

-- `os_base` is an address of the operating system; `none` is null.
pub record SharedBufferObj : Type 0 where
  pub bytes : List ℕ
  pub size : ℕ
  pub plat_types : List ℕ
  pub plat_values : List ℕ
  pub plat_count : ℕ
  pub plat_owns : Bool
  pub guid_high : ℕ
  pub guid_low : ℕ
  pub access_mode : ℕ
  pub os_base : Option ℕ
  pub os_mapped_size : ℕ

pub record PlatformObj : Type 0 where
  pub type : ℕ
  pub value : ℕ
  pub owns : Bool

-- `HandleKind` with the object that a slot of that kind holds.
pub data Slot : Type 0 where
  free : Slot
  message_pipe : PipeEnd → Slot
  message : MessageObj → Slot
  trap : TrapObj → Slot
  data_pipe_producer : DataPipeEnd → Slot
  data_pipe_consumer : DataPipeEnd → Slot
  shared_buffer : ℕ → Slot
  platform : PlatformObj → Slot

pub record PendingEvent : Type 0 where
  pub handler : ℕ
  pub event : WhpTrapEvent

-- The address `offset` bytes into the memory of a shared buffer.
pub record Address : Type 0 where
  pub buffer : ℕ
  pub offset : ℕ

pub record MappedRegion : Type 0 where
  pub data_ptr : Address
  pub buf : ℕ
  pub refs : ℕ

-- `Core`, with the heap of the objects that handles share. The back of `free_list` is its head.
-- `closed_native` lists what `CloseNativePlatform` was called on, newest first.
pub record Core : Type 0 where
  pub slots : List Slot
  pub free_list : List ℕ
  pub traps : List ℕ
  pub pipes : List PipeState
  pub data_pipes : List DataPipeState
  pub buffers : List SharedBufferObj
  pub maps : List MappedRegion
  pub inited : Bool
  pub pending_events : List PendingEvent
  pub closed_native : List PlatformObj

-- `Core()`: one slot, not used.
abbrev pub initial_core : Core
initial_core = record {
  slots = free ∷ [];
  free_list = [];
  traps = [];
  pipes = [];
  data_pipes = [];
  buffers = [];
  maps = [];
  inited = false;
  pending_events = [];
  closed_native = [];
}
