-- ===== src/Router.antt =====
-- WASMCadidumBindings: the router that shares one message pipe among interfaces
-- (src/lib/multiplex_router.cc, include/mojo/public/cpp/bindings/lib/multiplex_router.h) and the
-- numbers and strings of its messages (include/mojo/public/cpp/bindings/lib/wire_primitives.h).
pub mod Wire
pub mod Types
pub mod Endpoints
pub mod Dispatch
pub mod Notices
pub mod Delivery
pub mod Quiet
pub mod Order
pub mod Runs
pub mod Ids
mod Tests
