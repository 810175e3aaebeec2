-- ===== src/Bridge/Events.antt =====
-- The events of a device, `ble_device_event_cb` of Sources/LibDCBridge/src/configuredc.c.
pub mod Serial
pub mod Holding
mod Tests
use libdc_swift.Prelude.{
  ℕ, ◌+◌, ◌-◌, ◌/◌, ◌%◌, ◌^◌, Bool, true, false, List, [], ◌∷◌, Option, none, some, ltb, ◌==◌, ◌&&◌,
  if◌then◌else◌, length, Call, Result, ok, err, Text,
}
use libdc_swift.Bridge.Types.{DeviceData, DevInfo, Progress, Block, State, Resource, block, acquire}
use libdc_swift.Bridge.Platform.{Platform}
use libdc_swift.Bridge.Events.Serial.{serial_text}

-- What the callback is told: DC_EVENT_DEVINFO, DC_EVENT_PROGRESS, or another event.
pub data Event : Type 0 where
  devinfo : DevInfo → Event
  progress : Progress → Event
  other : Event

module _ {W : Type 0} (platform : Platform W) where
  -- The answer of the lookup: bytes are set on the device, whose outcome is only printed, and kept.
  -- An empty answer is dropped.
  pub use_fingerprint : ℕ → Option Block → State W → State W
  use_fingerprint device none s = s
  use_fingerprint device (some f) s = if length f.bytes == 0 then s else record s {
    env = (platform.device_set_fingerprint device f.bytes s.env).1;
    data_of = record s.data_of { fingerprint = some f };
  }

  -- The lookup itself. The bytes that it returns were allocated by Swift, and are the bridge's now.
  pub look_up : ℕ → Text → DevInfo → State W → State W
  unfolding use_fingerprint serial_text
  look_up device model info s =
      let (f, env) = platform.lookup_fingerprint model (serial_text info.serial) s.env in
      let s1 = record s { env = env } in
      use_fingerprint device f (elim f [ none ↦ s1 | some b ↦ acquire (block b.address) s1 ])

  -- The lookup is made if Swift has installed it and the model is known.
  pub look_up_if : Bool → ℕ → Option Block → DevInfo → State W → State W
  unfolding look_up
  look_up_if true device (some model) info s = look_up device model.bytes info s
  look_up_if _ device _ info s = s

  pub ble_device_event_cb : ℕ → Event → State W → State W
  unfolding look_up_if
  ble_device_event_cb device (devinfo info) s =
      let s1 = record s { data_of = record s.data_of { devinfo = some info } } in
      look_up_if s.data_of.lookup_fingerprint device s.data_of.model info s1
  ble_device_event_cb device (progress p) s = record s {
    data_of = record s.data_of { progress = some p };
  }
  ble_device_event_cb device other s = s
