-- ===== src/Bridge.antt =====
-- The C bridge between the Swift package and libdivecomputer, Sources/LibDCBridge/src/configuredc.c.
pub mod Types
pub mod Platform
mod Fixture
pub mod Stream
pub mod Descriptors
pub mod Events
pub mod Open
