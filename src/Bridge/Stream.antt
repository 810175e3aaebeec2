-- ===== src/Bridge/Stream.antt =====
-- The BLE stream of Sources/LibDCBridge/src/configuredc.c, and its opening. The table
-- `ble_iostream_vtable` has the six functions of this file and no other.
pub mod Holding
mod Tests
use libdc_swift.Prelude.{
  ℕ, Bool, true, false, List, [], ◌∷◌, Option, none, some, ltb, leb, ◌&&◌, ◌==◌, if◌then◌else◌,
  Call, Result, ok, err, Error, ◌>>=◌, ◌>>◌, return, fail, no_memory, Text,
}
use libdc_swift.Bridge.Types.{
  BleStream, State, Resource, ble_object, iostream, block, acquire, release,
}
use libdc_swift.Bridge.Platform.{Platform, on_env, change_env}

module _ {W : Type 0} (platform : Platform W) where
  -- A call of the allocator.
  unfoldable pub malloc : State W → Option ℕ × State W
  malloc s = let (p, env) = platform.malloc s.env in (p, record s { env = env })

  pub ble_stream_set_timeout : BleStream → ℕ → Call (State W) (Unit {0})
  ble_stream_set_timeout stream timeout =
      on_env (platform.ble_set_timeout stream.ble_object timeout)

  -- What follows the read in the source only looks at the bytes.
  pub ble_stream_read : BleStream → ℕ → Call (State W) (List ℕ)
  ble_stream_read stream size = on_env (platform.ble_read stream.ble_object size)

  -- The result is the value of `*actual`.
  pub ble_stream_write : BleStream → List ℕ → Call (State W) ℕ
  ble_stream_write stream bytes = on_env (platform.ble_write stream.ble_object bytes)

  pub ble_stream_ioctl : BleStream → ℕ → ℕ → Call (State W) (List ℕ)
  ble_stream_ioctl stream request size = on_env (platform.ble_ioctl stream.ble_object request size)

  pub ble_stream_sleep : BleStream → ℕ → Call (State W) (Unit {0})
  ble_stream_sleep stream milliseconds = on_env (platform.ble_sleep stream.ble_object milliseconds)

  -- `freeBLEObject`
  pub free_ble_object : ℕ → State W → State W
  free_ble_object object s =
      release (ble_object object) (change_env (platform.free_ble_object object) s)

  pub ble_stream_close : BleStream → Call (State W) (Unit {0})
  unfolding free_ble_object
  ble_stream_close stream s =
      let (rc, s1) = on_env (platform.ble_close stream.ble_object) s in
      (rc, free_ble_object stream.ble_object s1)

  -- `dc_iostream_close` of libdivecomputer/src/iostream.c on such a stream: the function of its
  -- table, then the memory of the stream.
  unfoldable pub iostream_close : BleStream → Call (State W) (Unit {0})
  unfolding ble_stream_close
  iostream_close stream s =
      let (rc, s1) = ble_stream_close stream s in (rc, release (iostream stream.address) s1)

  -- The stream around a BLE object, `none` where there is no memory for it.
  pub ble_iostream_create : ℕ → Call (State W) BleStream
  unfolding malloc
  ble_iostream_create object s =
      let (p, s1) = malloc s in
      elim p [
        | none ↦ (err no_memory, s1)
        | some address ↦
            (ok (record { address = address; ble_object = object }), acquire (iostream address) s1)
      ]

  -- `createBLEObject`
  pub create_ble_object : Call (State W) ℕ
  create_ble_object s =
      let (p, env) = platform.create_ble_object s.env in
      let s1 = record s { env = env } in
      elim p [
        | none ↦ (err no_memory, s1)
        | some object ↦ (ok object, acquire (ble_object object) s1)
      ]

  -- `connectToBLEDevice`
  pub connect : ℕ → Text → Call (State W) (Unit {0})
  connect object devaddr s =
      let (connected, env) = platform.connect_to_ble_device object devaddr s.env in
      (if connected then ok tt else err Error.io, record s { env = env })

  -- A failure gives the BLE object back.
  pub or_free_object : {A : Type 0} → ℕ → Result A × State W → Result A × State W
  unfolding free_ble_object
  or_free_object object (ok a, s) = (ok a, s)
  or_free_object object (err e, s) = (err e, free_ble_object object s)

  -- `ble_can_connect_now`
  pub check_cooldown : Call (State W) (Unit {0})
  check_cooldown s =
      let (allowed, env) = platform.ble_can_connect_now s.env in
      (if allowed then ok tt else err Error.io, record s { env = env })

  unfoldable pub ble_packet_open : ℕ → Text → Call (State W) BleStream
  unfolding check_cooldown create_ble_object connect or_free_object ble_iostream_create
  ble_packet_open context devaddr = do
    λ s. (ok tt, change_env platform.initialize_ble_manager s)
    λ s. (ok tt, change_env (platform.install_libdc_logger context) s)
    check_cooldown
    object ← create_ble_object
    λ s. or_free_object object (connect object devaddr s)
    λ s. or_free_object object (ble_iostream_create object s)
