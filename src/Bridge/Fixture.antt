-- ===== src/Bridge/Fixture.antt =====
-- A small platform on which the bridge's functions run: the environment counts the calls.
use libdc_swift.Prelude.{ℕ, ◌+◌, ◌==◌, true, List, [], ◌∷◌, some, ok, err, Error, codes}
use libdc_swift.Bridge.Types.{Descriptor, State, cleared}
use libdc_swift.Bridge.Platform.{Platform}

-- An Aqualung i770R: model 0x4651, "FQ".
abbrev pub aqualung : Descriptor
aqualung = record {
  vendor = some (codes "Aqualung");
  product = some (codes "i770R");
  family = 262146;
  model = 0x4651;
  transports = 32;
}

abbrev pub oceans : Descriptor
oceans = record {
  vendor = some (codes "Oceans");
  product = some (codes "S1");
  family = 1179648;
  model = 0;
  transports = 32;
}

abbrev pub table : List Descriptor
table = oceans ∷ aqualung ∷ []

-- Everything succeeds, and every call counts the environment up.
abbrev pub sim : Platform ℕ
sim = record {
  context_new = λ w. (ok 1, w + 1);
  context_free = λ c w. w + 1;
  descriptor_iterator = λ w. (ok (7, table), w + 1);
  iterator_free = λ it w. w + 1;
  descriptor_filter = λ d name. d.model == 0x4651;
  device_open = λ c d b w. (ok 5, w + 1);
  device_set_events = λ h e w. (ok tt, w + 1);
  device_set_fingerprint = λ h f w. (ok tt, w + 1);
  device_close = λ h w. (ok tt, w + 1);
  parser_new2 = λ c d b w. (ok 6, w + 1);
  initialize_ble_manager = λ w. w + 1;
  install_libdc_logger = λ c w. w + 1;
  ble_can_connect_now = λ w. (true, w + 1);
  create_ble_object = λ w. (some 3, w + 1);
  connect_to_ble_device = λ o a w. (true, w + 1);
  free_ble_object = λ o w. w + 1;
  ble_set_timeout = λ o t w. (ok tt, w + 1);
  ble_read = λ o n w. (ok [], w + 1);
  ble_write = λ o b w. (ok 0, w + 1);
  ble_ioctl = λ o r n w. (ok [], w + 1);
  ble_sleep = λ o t w. (ok tt, w + 1);
  ble_close = λ o w. (ok tt, w + 1);
  lookup_fingerprint = λ m serial w. (some (record { address = 900; bytes = codes "abcd" }), w + 1);
  malloc = λ w. (some (w + 100), w + 1);
}

-- The device is reached and does not answer.
abbrev pub silent : Platform ℕ
silent = record sim { device_open = λ c d b w. (err Error.io, w + 1) }

abbrev pub idle : State ℕ
idle = record { env = 0; data_of = cleared; held = []; bad_releases = 0 }
