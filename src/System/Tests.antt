-- ===== src/System/Tests.antt =====
-- Each theorem about System at a concrete input.
mod Samples
mod Rings
mod Handles
mod Messages
