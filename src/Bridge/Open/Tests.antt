-- ===== src/Bridge/Open/Tests.antt =====
-- Runs of the opening and closing of a dive computer.
use libdc_swift.Prelude.{ℕ, ◌≡◌, refl, [], ◌∷◌, some, err, Error, codes, true, arith}
use libdc_swift.Bridge.Types.{State, DeviceData, DevInfo, Block, block, cleared, Holds, owned}
use libdc_swift.Bridge.Fixture.{sim, silent, idle, aqualung}
use libdc_swift.Bridge.Stream.{iostream_close, ble_packet_open}
use libdc_swift.Bridge.Descriptors.{find_descriptor_by_model}
use libdc_swift.Bridge.Open.{
  open_ble_device, close_device_data, open_ble_device_with_identification,
}
use libdc_swift.Bridge.Events.{devinfo, ble_device_event_cb}
use libdc_swift.Bridge.Open.Leaking.{ble_device_event_cb-leaks}
use libdc_swift.Bridge.Open.Closing.{closed, close_device_data-Holds}
use libdc_swift.Bridge.Open.Opening.{Opens, open_ble_device-Opens}
use libdc_swift.Bridge.Open.Identified.{Identifies, open_ble_device_with_identification-Identifies}
use libdc_swift.Bridge.Open.Attempts.{Attempts, open_ble_device_with_identification-Attempts}

open_ble_device-Opens_example :
    Opens [] 0 (open_ble_device sim (some (codes "a1")) 262146 0x4651 idle)
open_ble_device-Opens_example = open_ble_device-Opens sim (some (codes "a1")) 262146 0x4651 idle

open_ble_device_with_identification-Identifies_example :
    Identifies [] 0
      (open_ble_device_with_identification sim (codes "FQ001234") (some (codes "a1")) 0 0 idle)
open_ble_device_with_identification-Identifies_example =
    open_ble_device_with_identification-Identifies sim (codes "FQ001234") (some (codes "a1")) 0 0
      idle

-- A structure that holds everything, and its state.
abbrev full : DeviceData
full = record cleared {
  device = some 5;
  context = some 1;
  iostream = some (record { address = 105; ble_object = 3 });
  descriptor = some aqualung;
  fingerprint = some (record { address = 900; bytes = codes "abcd" });
  model = some (record { address = 111; bytes = codes "Aqualung i770R" });
}

abbrev connected : State ℕ
connected = record {
  env = 20;
  data_of = full;
  held = owned full (block 100 ∷ []);
  bad_releases = 0;
}

close_device_data-Holds_example :
    Holds (closed full) (block 100 ∷ []) 0 (close_device_data sim connected)
close_device_data-Holds_example =
    close_device_data-Holds sim (block 100 ∷ []) 0 full connected
      (record { data_is = refl; held_is = refl; bad_is = refl })

-- A fingerprint was looked up, and another one is.
abbrev info : DevInfo
info = record { model = 0x4651; firmware = 1; serial = 1234 }

abbrev old : Block
old = record { address = 800; bytes = codes "wxyz" }

abbrev renewed : DeviceData
renewed = record full { lookup_fingerprint = true; fingerprint = some old }

ble_device_event_cb-leaks_example :
    let s = record connected { data_of = renewed; held = owned renewed (block 100 ∷ []) } in
    ((close_device_data sim s).held ≡ block 100 ∷ [])
    × ((close_device_data sim (ble_device_event_cb sim 5 (devinfo info) s)).held
        ≡ block 800 ∷ block 100 ∷ [])
ble_device_event_cb-leaks_example =
    ble_device_event_cb-leaks sim 5 info (block 100 ∷ []) 0 renewed
      (record connected { data_of = renewed; held = owned renewed (block 100 ∷ []) })
      (record { address = 111; bytes = codes "Aqualung i770R" }) old
      (record { address = 900; bytes = codes "abcd" })
      (record { data_is = refl; held_is = refl; bad_is = refl }) refl refl refl (omega arith) refl
      (λ e. cc)

-- The device is reached by its stored configuration and does not answer.
abbrev allocated : State ℕ
allocated = record { env = 1; data_of = cleared; held = block 100 ∷ []; bad_releases = 0 }

attempt_fails :
    open_ble_device silent (some (codes "a1")) 262146 0x4651 allocated
    ≡ (err Error.io, record allocated { env = 15 })
unfolding open_ble_device find_descriptor_by_model ble_packet_open iostream_close
attempt_fails = refl

open_ble_device_with_identification-Attempts_example :
    Attempts silent (codes "FQ001234") (some (codes "a1")) 262146 0x4651 idle (
      open_ble_device_with_identification silent
        (codes "FQ001234")
        (some (codes "a1"))
        262146
        0x4651
        idle)
open_ble_device_with_identification-Attempts_example =
    open_ble_device_with_identification-Attempts silent (codes "FQ001234") (some (codes "a1"))
      262146 0x4651 idle
