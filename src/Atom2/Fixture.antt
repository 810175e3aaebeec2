-- ===== src/Atom2/Fixture.antt =====
-- Streams on which the driver's functions run: one that plays a script of BLE packets, and a serial
-- line to a device whose memory holds zeros.
use libdc_swift.Prelude.{
  ℕ, ◌+◌, ◌-◌, ◌%◌, false, List, [], ◌∷◌, none, ok, err, take, replicate, timeout, unsupported,
}
use libdc_swift.Libdc.{Stream, serial, ble}
use libdc_swift.Atom2.Types.{Device, State, invalid}

-- The packets that are still to come, and those that were sent, the latest first.
pub record Wire : Type 0 where
  pub replies : List (List ℕ)
  pub sent : List (List ℕ)

abbrev pub sum : List ℕ → ℕ
sum [] = 0
sum (x ∷ xs) = x + sum xs

abbrev pub scripted : Stream Wire
scripted = record {
  transport = ble;
  write = λ bytes w. (ok tt, record w { sent = bytes ∷ w.sent });
  read = λ n w. elim w.replies [
    | [] ↦ (err timeout, w)
    | r ∷ rs ↦ (ok (take n r), record w { replies = rs })
  ];
  read_all = λ n w. (err timeout, w);
  sleep = λ ms w. w;
  purge = λ d w. w;
  is_cancelled = λ w. (false, w);
  get_name = λ n w. (err unsupported, w);
  configure = λ baudrate w. (ok tt, w);
  set_timeout = λ ms w. (ok tt, w);
  set_dtr = λ level w. (ok tt, w);
  set_rts = λ level w. (ok tt, w);
  checksum_add_uint8 = λ bytes. sum bytes % 256;
  checksum_add_uint16 = λ bytes. sum bytes % 65536;
  fuel = 32;
}

-- Every answer is an ACK and zeros.
abbrev pub blank : Stream (Unit {0})
blank = record {
  transport = serial;
  write = λ bytes w. (ok tt, w);
  read = λ n w. (err timeout, w);
  read_all = λ n w. (ok (0x5A ∷ replicate (n - 1) 0), w);
  sleep = λ ms w. w;
  purge = λ d w. w;
  is_cancelled = λ w. (false, w);
  get_name = λ n w. (err unsupported, w);
  configure = λ baudrate w. (ok tt, w);
  set_timeout = λ ms w. (ok tt, w);
  set_dtr = λ level w. (ok tt, w);
  set_rts = λ level w. (ok tt, w);
  checksum_add_uint8 = λ bytes. sum bytes % 256;
  checksum_add_uint16 = λ bytes. sum bytes % 65536;
  fuel = 1;
}

-- A device before it is opened.
abbrev pub closed_device : Device
closed_device = record {
  version = [];
  firmware = 0;
  model = 0;
  layout = none;
  handshake_repeat = false;
  handshake_counter = 0;
  sequence = 0;
  delay = 0;
  extra = false;
  bigpage = 1;
  cache = [];
  cached_page = invalid;
  cached_highmem = invalid;
}

abbrev pub at : List (List ℕ) → State Wire
at replies = record { dev = closed_device; env = record { replies = replies; sent = [] } }
