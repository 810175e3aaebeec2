-- ===== src/Bridge/Events/Tests.antt =====
-- Runs of the event callback.
use libdc_swift.Prelude.{ℕ, ◌≡◌, refl, [], some, codes, true, length, arith}
use libdc_swift.Bridge.Types.{State, DeviceData, DevInfo, Block, cleared, owned}
use libdc_swift.Bridge.Fixture.{sim}
use libdc_swift.Bridge.Events.{devinfo, ble_device_event_cb}
use libdc_swift.Bridge.Events.Serial.{serial_text, hex_value, serial_text-roundtrip}
use libdc_swift.Bridge.Events.Holding.{Keeping, ble_device_event_cb-Keeping}

abbrev info : DevInfo
info = record { model = 0x4651; firmware = 1; serial = 1234 }

abbrev name : Block
name = record { address = 111; bytes = codes "Aqualung i770R" }

abbrev answer : Block
answer = record { address = 900; bytes = codes "abcd" }

abbrev opened : DeviceData
opened = record cleared { lookup_fingerprint = true; model = some name }

abbrev before : State ℕ
before = record { env = 5; data_of = opened; held = owned opened []; bad_releases = 0 }

serial_text-roundtrip_example :
    (hex_value 0 (serial_text 0x00A1_B2C3) ≡ 0x00A1_B2C3) × (length (serial_text 0x00A1_B2C3) ≡ 8)
serial_text-roundtrip_example = serial_text-roundtrip 0x00A1_B2C3 (omega arith)

ble_device_event_cb-Keeping_example :
    Keeping sim opened [] 0 (ble_device_event_cb sim 5 (devinfo info) before)
ble_device_event_cb-Keeping_example =
    ble_device_event_cb-Keeping sim 5 (devinfo info) opened [] 0 before refl (λ w m serial e. cc)
      (record { data_is = refl; held_is = refl; bad_is = refl })
