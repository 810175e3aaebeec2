-- ===== src/Libdc.antt =====
-- The parts of the libdivecomputer interface that the program's own code uses: its transports
-- (include/libdivecomputer/common.h), the device information (include/libdivecomputer/device.h) and an I/O stream (include/libdivecomputer/iostream.h) with
-- its checksums (src/checksum.h) as parameters. The code behind them is not modelled.
use libdc_swift.Prelude.{Bool, true, false, ℕ, List, Call}

-- `dc_transport_t`
pub data Transport : Type 0 where
  no_transport serial usb usbhid irda bluetooth ble : Transport

abbrev pub is_ble : Transport → Bool
is_ble ble = true
is_ble _ = false

-- Which way `dc_iostream_purge` empties.
pub data Direction : Type 0 where
  input output all : Direction

-- `dc_iostream_t` over an environment `W`: the hardware, the clock and the user.
-- `read n` is `dc_iostream_read` with an `actual` pointer: it gives the bytes transferred.
-- `read_all n` is the same call with a null pointer, which succeeds only with all `n` bytes.
-- `fuel` bounds the packets that the model reads for one answer.
-- `is_cancelled` is `device_is_cancelled`, which asks the application.
pub record Stream (W : Type 0) : Type 0 where
  pub transport : Transport
  pub write : List ℕ → Call W (Unit {0})
  pub read : ℕ → Call W (List ℕ)
  pub read_all : ℕ → Call W (List ℕ)
  pub sleep : ℕ → W → W
  pub purge : Direction → W → W
  pub is_cancelled : W → Bool × W
  pub get_name : ℕ → Call W (List ℕ)
  pub configure : ℕ → Call W (Unit {0})
  pub set_timeout : ℕ → Call W (Unit {0})
  pub set_dtr : ℕ → Call W (Unit {0})
  pub set_rts : ℕ → Call W (Unit {0})
  pub checksum_add_uint8 : List ℕ → ℕ
  pub checksum_add_uint16 : List ℕ → ℕ
  pub fuel : ℕ

-- `dc_event_devinfo_t`
pub record DevInfo : Type 0 where
  pub model : ℕ
  pub firmware : ℕ
  pub serial : ℕ
