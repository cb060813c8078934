-- ===== src/System.antt =====
-- WASMHolePunch/src/system/core.cc: the handle table, pipes, traps and buffers of HolePunch.
pub mod Types
pub mod Signals
pub mod Table
pub mod DataPipe
pub mod Traps
pub mod Messages
pub mod Pipes
pub mod Platform
pub mod Buffers
pub mod Close
pub mod DataCalls
pub mod Machine
mod Tests
