-- ===== src/Atom2/Open/Tests.antt =====
-- A run of the opening over BLE.
use libdc_swift.Prelude.{
  ℕ, ◌≡◌, refl, true, List, [], ◌∷◌, ◌++◌, ◌%◌, ok, some, take, drop, codes, replicate,
}
use libdc_swift.Atom2.Types.{Device}
use libdc_swift.Atom2.Layouts.{aqualung_i770r}
use libdc_swift.Atom2.Fixture.{Wire, scripted, closed_device, sum}
use libdc_swift.Atom2.Frame.{ble_read, ble_write}
use libdc_swift.Atom2.Packet.{transfer}
use libdc_swift.Atom2.Session.{device_version, ble_handshake}
use libdc_swift.Atom2.Versions.{versions}
use libdc_swift.Common.Match.{common_match}
use libdc_swift.Atom2.Open.{device_open, init}
use libdc_swift.Libdc.{Stream}
use libdc_swift.Atom2.Open.Detected.{IsReadable}
use libdc_swift.Atom2.Open.Opened.{device_open-IsReadable}
use libdc_swift.Atom2.Open.Handshaken.{Handshaken, device_open-Handshaken}

abbrev version : List ℕ
version = codes "AQUA770R 1B 4096"

abbrev wire : Wire
wire = record {
  replies =
      (0xCD ∷ 0xE0 ∷ 0 ∷ 16 ∷ 0x5A ∷ take 15 version)
      ∷ (0xCD ∷ 0xC1 ∷ 0 ∷ 2 ∷ drop 15 version ++ sum version % 256 ∷ [])
      ∷ [];
  sent = [];
}

-- The device that is opened: it is asked for its version once.
abbrev i770r_device : Device
i770r_device = record closed_device {
  version = version;
  firmware = 0x3142;
  model = 0x4651;
  layout = some aqualung_i770r;
  sequence = 1;
  extra = true;
  bigpage = 16;
  cache = replicate 256 0;
}

i770r-opened :
    device_open scripted true closed_device 0x4651 wire
    ≡ (ok i770r_device, record { replies = []; sent = (0xCD ∷ 0x40 ∷ 0 ∷ 1 ∷ 0x84 ∷ []) ∷ [] })
unfolding device_open ble_read ble_write transfer device_version ble_handshake common_match versions
i770r-opened = refl

device_open-IsReadable_example : IsReadable i770r_device
device_open-IsReadable_example =
    device_open-IsReadable scripted true closed_device 0x4651 wire i770r-opened

-- The same device over a stream that knows its name: it acknowledges the passphrase.
abbrev named : Stream Wire
named = record scripted { get_name = λ n w. (ok (codes "FQ001124" ++ 0 ∷ []), w) }

abbrev shaking : Wire
shaking = record wire { replies = wire.replies ++ (0xCD ∷ 0xC0 ∷ 1 ∷ 1 ∷ 0x5A ∷ []) ∷ [] }

abbrev shaken : Wire
shaken = record {
  replies = [];
  sent =
      (0xCD ∷ 0x40 ∷ 1 ∷ 10 ∷ 0xE5 ∷ 0 ∷ 0 ∷ 1 ∷ 1 ∷ 2 ∷ 4 ∷ 0 ∷ 0 ∷ 8 ∷ [])
      ∷ (0xCD ∷ 0x40 ∷ 0 ∷ 1 ∷ 0x84 ∷ [])
      ∷ [];
}

opened-shaken :
    device_open named true closed_device 0x4651 shaking
    ≡ (ok (record i770r_device { sequence = 2 }), shaken)
unfolding device_open ble_read ble_write transfer device_version ble_handshake common_match versions
opened-shaken = refl

device_open-Handshaken_example :
    Handshaken named 0x4651 (record { dev = init closed_device 0x4651; env = shaking }) shaken
device_open-Handshaken_example =
    device_open-Handshaken named true closed_device 0x4651 shaking refl opened-shaken
