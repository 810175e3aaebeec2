-- ===== src/Bridge/Stream/Holding.antt =====
-- What `ble_packet_open` holds when it ends.
use libdc_swift.Prelude.{ℕ, ◌≡◌, ◌++◌, some, ok, err, Result, arith, Text}
use libdc_swift.Bridge.Types.{BleStream, State, owned_stream}
use libdc_swift.Bridge.Platform.{Platform}
use libdc_swift.Bridge.Stream.{ble_packet_open}

-- A call that acquires a stream and its object, or nothing.
abbrev pub AcquiresStream : {W : Type 0} → State W → Result BleStream × State W → Type 0
AcquiresStream s (ok b, s') =
    (s'.held ≡ owned_stream (some b) ++ s.held)
    × (s'.bad_releases ≡ s.bad_releases)
    × (s'.data_of ≡ s.data_of)
AcquiresStream s (err e, s') =
    (s'.held ≡ s.held) × (s'.bad_releases ≡ s.bad_releases) × (s'.data_of ≡ s.data_of)

module _ {W : Type 0} (platform : Platform W) where
  -- Opening a BLE connection acquires the BLE object and the stream around it, or fails and has
  -- given back what it had acquired: the object is freed exactly once where the connection or the
  -- allocation of the stream fails.
  pub ble_packet_open-AcquiresStream :
      (context : ℕ) (devaddr : Text) (s : State W)
      → AcquiresStream s (ble_packet_open platform context devaddr s)
  unfolding ble_packet_open
  ble_packet_open-AcquiresStream context devaddr s = ground arith
