-- ===== src/Lib.antt =====
-- libdc-swift: the C code between the Swift package and the dive computers.
--
-- The Swift package opens a dive computer over Bluetooth LE by the bridge
-- (Sources/LibDCBridge/src/configuredc.c). The bridge finds a descriptor in the table of
-- libdivecomputer, connects through the Objective-C functions of BLEBridge.h, puts a stream around
-- the connection and hands it to dc_device_open, which for the Oceanic and Aqualung models runs the
-- driver libdivecomputer/src/oceanic_atom2.c. That driver is maintained in this repository (its
-- order of VERSION and handshake, its delays and its refusal to go on are not those of the library
-- it comes from), and reads the memory of the dive computer through a page cache.
--
-- Files:
-- - Prelude: lists, texts, tests and the results of calls. A call is a function of a state into a
--   result and a state; `do` chains stop at the first error.
-- - Libdc: what both parts use of libdivecomputer's interface; `Stream` is dc_iostream_t.
-- - Bridge: configuredc.c. Types has device_data_t and the account of what is held, Platform the
--   functions that the bridge calls. Stream is ble_stream_t and ble_packet_open; Descriptors the
--   searches by model and by name (find_descriptor_by_model, find_descriptor_by_name,
--   get_formatted_device_name, create_parser_for_device); Events the callback; Open
--   open_ble_device, close_device_data and open_ble_device_with_identification.
-- - Atom2: oceanic_atom2.c. Layouts and Versions are its tables; Frame is ble_write and ble_read,
--   Packet the exchange and its retries, Session version, handshake, keepalive and quit, Memory
--   device_read and device_write, Open device_open.
-- - Common: libdivecomputer/src/oceanic_common.c, the base of the driver. Match is the match of
--   version patterns; Base the fingerprint, the device information, the pointers and the dump (with
--   device_dump_read of device.c); Logbook oceanic_common_device_logbook; Profile get_profile and
--   the first pass of oceanic_common_device_profile, Dives its second pass and the whole; Foreach
--   oceanic_common_device_foreach, which calls all of them. Ring is the arithmetic of ringbuffer.c,
--   RbStream the stream of rbstream.c through which the rings are read.
-- - The modules named Tests and Fixture run the functions on concrete data.
--
-- Correspondence: a C function is a function of the same name (in the driver without the prefix
-- oceanic_atom2_). What a pointer argument returns is in the result. The bridge's state is the
-- structure behind `data`, the environment and the list of resources that are held, to which
-- every acquisition adds and from which every release takes; releasing what is not held is
-- counted. The driver's state is its device structure and the environment. An unsigned int wraps
-- at 2 ^ 32 where the source can pass it, a byte at 2 ^ 8.
--
-- Bounds and fuel: the loops of ble_write, device_read, device_write, the ring stream, the
-- logbook and the dump run on fuel that is the number of their bytes, each round taking at least
-- one. The loop of ble_read has no bound in the source; `Stream.fuel` bounds it, and a model that
-- runs out of it ends with an error of its own, which no status of the library is equal to. So
-- does an access outside a buffer (the error overrun): a write before the start of the logbook's
-- buffer, or a walk over a logbook of no whole number of entries. The source has no test there, and
-- nothing is said of what it does then. The retries of a transfer and of
-- VERSION are counted down from the source's limits. The entries of a logbook are listed on fuel
-- that is the number of its bytes.
--
-- The code above the driver reads the device through a function that stands for dc_device_read,
-- so that what holds of it for every such function holds for the driver's device_read too
-- (Atom2.Memory.Serving, Atom2.Memory.Download, Atom2.Memory.Foreach).
--
-- Not modelled: printing, logging and progress events; the Swift and Objective-C code, the
-- operating system and the rest of libdivecomputer, whose calls are parameters; null arguments
-- that only a programming error passes; a buffer that the stream leaves partly unwritten is taken
-- as zeros where it is read.
pub mod Prelude
pub mod Libdc
pub mod Common
pub mod Atom2
pub mod Bridge
