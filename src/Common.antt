-- ===== src/Common.antt =====
-- The base of the Oceanic drivers, libdivecomputer/src/oceanic_common.c, and its ring buffers.
pub mod Match
pub mod RbStream
pub mod Ring
pub mod Base
pub mod Logbook
pub mod Profile
pub mod Dives
pub mod Foreach
