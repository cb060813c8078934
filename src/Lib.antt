-- ===== src/Lib.antt =====
-- A model of parts of the repository: HolePunch, the message-passing core under the bindings
-- (WASMHolePunch/src/system/core.cc with WASMHolePunch/include/whp/c/types.h), and, of the IDL
-- compiler voodoomc, the tokenizer (src/lexer.cc, src/lexer.h), the module loader
-- (src/module_loader.cc, src/module_loader.h), the filter of `[EnableIf]` declarations (ApplyEnableIf
-- of src/parser.cc), the syntax tree (src/ast.h) and the type interning (src/type_intern.cc,
-- src/type_intern.h); and, of the Cadidum bindings, the router that shares a message pipe among
-- interfaces (WASMCadidumBindings/src/lib/multiplex_router.cc, with lib/multiplex_router.h,
-- lib/wire_primitives.h and interface_id.h of its include directory); and the frames and the handshake
-- of HolePunch's invitations (WASMHolePunch/src/platform/invitation.cc).
--
-- HolePunch is one table of handles behind one lock. A handle names a message pipe end, a message,
-- a trap, an end of a data pipe, a shared buffer or a platform handle; a call looks its handles up,
-- changes the object, and collects the events of armed traps. Each call is a function of the core.
--
-- voodoomc loads a file and what it imports: the loader reads a text, has it tokenized and its header
-- parsed, loads the imports in turn, has the body parsed with the declarations of the files before
-- it, takes out the declarations that are not enabled, and merges the rest for the files to come.
--
-- A router hands what its pipe brings to the client of an endpoint, keeps it where there is no client
-- yet, and tells the other router when an endpoint closes.
--
-- - System/Types: the structs and constants. An object that several owners share is an index into
--   a list of the core; an object with one owner stands in its slot.
-- - System/Table: Core::Alloc, Lookup and Free, and the invariant of the table.
-- - System/Signals: PipeSignals, DataPipeSignals, SignalsMatch, QueryLocked.
-- - System/Traps: CollectTrapEvents, WhpPumpEvents and the calls on traps.
-- - System/DataPipe: the ring of a data pipe, and System/DataCalls its calls by handle.
-- - System/Messages and System/Pipes: messages, message pipes, quotas and fusing.
-- - System/Platform and System/Buffers: platform handles, shared buffers and their mappings.
-- - System/Close: WhpClose and WhpQueryHandleSignalsState.
-- - System/Machine: every call as a step, and the states that steps reach.
-- - Ast: the structs of src/ast.h.
-- - TypeIntern/Key, TypeIntern/Table: the keys and the class TypeIntern.
-- - Lexer: Tokenize, by kinds of token (Chars, Numbers, Strings, Tokenize), with the rest of the input
--   in place of the index; Printer writes tokens out.
-- - Gating: ClauseMatches, EraseDisabled, the filters and ApplyEnableIf.
-- - Loader: DirName, JoinPath, NormalizePath and ResolveImport (Paths), MergeIntoAccumulated (Merge),
--   LoadState and GiveUp (State), LoadFileInto and LoadModuleGraph (Load).
-- - Router: numbers and strings of messages (Wire), the state (Types), the calls on endpoints
--   (Endpoints), and Accept, AttachEndpointClient, HandlePipeControlMessage and OnPipeError (Dispatch).
--   What the router does to clients, handlers and the connector is a list of events.
-- - Invitation: SendFrame and RecvFrame (Frames) and Handshake, over the list of what comes in.
-- - Prelude: tests, lists, machine words and texts that the parts share.
--
-- Bounds. uint32_t and uint64_t arithmetic wraps where the code's does (add32, sub32, add64); a size
-- that the code keeps as size_t does not, nor does a line number. std::to_string is given ten digits,
-- which every int fits. Tokenize has one round of fuel for each byte and one more. LoadFileInto has
-- fuel for the depth of imports; beyond the number of files that can be read it is enough.
--
-- Parameters. What a serializer, a destructor or a trap handler does to the core (Callbacks), the
-- host that the preprocessor asks for (Host), and the address at which the system maps a region (Os).
-- A callback runs between the locked parts of a call, where the code calls it. The greatest `long`,
-- above which std::stol throws (long_max); the files that can be read (Settings.read_file); and the
-- class Parser of src/parser.h, of which the loader needs ParseHeader and ParseBody only: each gives a
-- value, a ParseError or an exception of another type. What the clients of a router and its handlers
-- answer, and what they do to the router while they run (Clients). What a path sends (`sends`) and what
-- Poll and Recv come to (Arrival), where Recv cuts a datagram at its buffer. Characters are
-- classified as in the C locale.
--
-- Not modelled: the lock (each call is one step), where the bytes are allocated (the Cage), failure
-- of an allocation, the numbering of results, the unused option structs, the parser and the
-- generators of voodoomc, the connector under a router, the handles that a message carries,
-- FlushForTesting, what an invitation does once its handshake is over, and the other parts of the
-- repository. An address that WhpMapBuffer returns is the buffer with an offset, so two buffers never
-- share one. The text of a message that an
-- exception carries is kept; that the messages of a failed load stay in the caller's vector is not.
pub mod Prelude
pub mod System
pub mod Ast
pub mod TypeIntern
pub mod Lexer
pub mod Gating
pub mod Loader
pub mod Router
pub mod Invitation
