-- ===== src/Invitation.antt =====
-- WASMHolePunch/src/platform/invitation.cc and include/whp/platform/invitation.h: the frames of an
-- invitation, and its handshake.
pub mod Frames
pub mod Handshake
pub mod Laws
mod Tests
