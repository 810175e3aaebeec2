-- ===== src/Atom2.antt =====
-- The driver of the Oceanic Atom 2 family, libdivecomputer/src/oceanic_atom2.c.
pub mod Layouts
pub mod Versions
pub mod Types
mod Fixture
pub mod Frame
pub mod Packet
pub mod Session
pub mod Memory
pub mod Open
