-- ===== src/Atom2/Open.antt =====
-- `oceanic_atom2_device_open` of libdivecomputer/src/oceanic_atom2.c.
pub mod Detected
pub mod Opened
pub mod Handshaken
mod Tests
use libdc_swift.Prelude.{
  ℕ, zero, suc, ◌+◌, ◌-◌, ◌*◌, ◌/◌, ◌%◌, Bool, true, false, ◌&&◌, ◌||◌, not, List, [], ◌∷◌, ◌++◌,
  Option, none, some, ltb, leb, ◌==◌, if◌then◌else◌, length, take, drop, replicate, Call, Result,
  ok, err, Error, ◌>>=◌, ◌>>◌, bind, return, fail, no_memory, timeout, protocol,
}
use libdc_swift.Libdc.{Stream, Direction, all, is_ble}
use libdc_swift.Atom2.Layouts.{
  LayoutId, layout_of, oceanic_atom1, oceanic_default, oceanic_oc1, hollis_tx1, aeris_f11,
  oceanic_proplus3, oceanic_proplusx, aqualung_i770r, aeris_a300cs,
}
use libdc_swift.Atom2.Versions.{Version, versions, pattern_bytes}
use libdc_swift.Common.Match.{common_match}
use libdc_swift.Atom2.Types.{Device, State, on_env, ack, u8, u32, invalid, page_size, repeat}
use libdc_swift.Atom2.Session.{device_version, ble_handshake}
use libdc_swift.Atom2.Memory.{proplus4}

-- `PROPLUSX`, `I770R`, `VTX` and `I750TC`
abbrev pub proplusx : ℕ
proplusx = 0x4552

abbrev pub i770r : ℕ
i770r = 0x4651

abbrev pub vtx : ℕ
vtx = 0x4557

abbrev pub i750tc : ℕ
i750tc = 0x455A

-- `oceanic_common_device_init`, of what `base`, the allocated memory, holds. The fingerprint and
-- `multipage` are not in `Device`.
pub common_init : Device → Device
common_init base = record base {
  firmware = 0;
  version = replicate page_size 0;
  model = 0;
  layout = none;
}

-- The device with the default values. Of the rest nothing is read before it is set.
pub init : Device → ℕ → Device
unfolding common_init
init base model = record (common_init base) {
  delay = 0;
  extra = (model == proplusx) || (model == i770r);
  sequence = 0;
  bigpage = 1;
  cached_page = invalid;
  cached_highmem = invalid;
  cache = replicate 256 0;
}

pub baudrate_of : ℕ → ℕ
baudrate_of model =
    if (model == vtx) || (model == i750tc) || (model == proplusx) || (model == i770r)
    then 115200
    else 38400

-- A failure of VERSION that another attempt may cure.
pub is_transient : Error → Bool
is_transient timeout = true
is_transient protocol = true
is_transient Error.io = true
is_transient _ = false

-- Equality of byte lists, as `memcmp` tells it.
pub same_bytes : List ℕ → List ℕ → Bool
same_bytes [] [] = true
same_bytes (x ∷ xs) (y ∷ ys) = (x == y) && same_bytes xs ys
same_bytes _ _ = false

-- The layout of a device that the table does not know, by the memory size in its version.
pub fallback_layout : List ℕ → LayoutId
unfolding same_bytes
fallback_layout version =
    let size = take 4 (drop 12 version) in
    if same_bytes size (pattern_bytes "256K")
    then oceanic_atom1
    else if same_bytes size (pattern_bytes "512K")
    then oceanic_default
    else if same_bytes size (pattern_bytes "1024")
    then oceanic_oc1
    else if same_bytes size (pattern_bytes "2048")
    then hollis_tx1
    else oceanic_default

pub bigpage_of : LayoutId → ℕ
bigpage_of aeris_f11 = 8
bigpage_of oceanic_proplus3 = 8
bigpage_of oceanic_proplusx = 16
bigpage_of aqualung_i770r = 16
bigpage_of aeris_a300cs = 16
bigpage_of _ = 1

-- The memory layout, the big pages and the repeated handshake. The matched entry is what
-- OCEANIC_COMMON_MATCH found, with the firmware that it extracted.
pub detect : Bool → Option (Version × ℕ) → Device → Device
unfolding fallback_layout bigpage_of
detect over_ble (some (v, firmware)) d = record d {
  firmware = firmware;
  model = v.model;
  layout = some v.layout;
  bigpage = if bigpage_of v.layout == 1 then d.bigpage else bigpage_of v.layout;
  handshake_repeat = over_ble && (v.model == proplus4);
  handshake_counter = 0;
}
detect over_ble none d =
    let layout = fallback_layout d.version in
    record d {
      model = 0;
      layout = some layout;
      bigpage = if bigpage_of layout == 1 then d.bigpage else bigpage_of layout;
      handshake_repeat = false;
      handshake_counter = 0;
    }

module _ {W : Type 0} (iostream : Stream W) where
  pub pause : ℕ → Call (State W) (Unit {0})
  pause ms s = (ok tt, record s { env = iostream.sleep ms s.env })

  pub purge_all : Call (State W) (Unit {0})
  purge_all s = (ok tt, record s { env = iostream.purge all s.env })

  -- The line settings, with the reset of the data cable.
  pub set_up : ℕ → Call (State W) (Unit {0})
  unfolding baudrate_of pause purge_all
  set_up model = do
    on_env (iostream.configure (baudrate_of model))
    on_env (iostream.set_timeout 1000)
    on_env (iostream.set_dtr 1)
    on_env (iostream.set_rts 0)
    pause 100
    on_env (iostream.set_rts 1)
    pause 100
    purge_all
    if is_ble iostream.transport then pause 2500 else return tt

  -- What follows an attempt at VERSION: another one after a pause, if its error is transient.
  pub again_if_transient :
      Call (State W) (List ℕ) → Result (List ℕ) × State W → Result (List ℕ) × State W
  unfolding is_transient pause
  again_if_transient next (ok v, s) = (ok v, s)
  again_if_transient next (err e, s) = if is_transient e then (pause 2000 >> next) s else (err e, s)

  -- The loop of attempts, with `left` more of them after the first.
  pub ask_version : ℕ → Call (State W) (List ℕ)
  unfolding again_if_transient
  ask_version zero s = device_version iostream page_size s
  ask_version (suc left) s =
      again_if_transient (ask_version left) (device_version iostream page_size s)

  pub store_version : List ℕ → Call (State W) (Unit {0})
  store_version v s = (ok tt, record s { dev = record s.dev { version = v } })

  pub detect_layout : Call (State W) (Unit {0})
  unfolding detect common_match versions
  detect_layout s =
      let over_ble = is_ble iostream.transport in
      (ok tt, record s { dev = detect over_ble (common_match s.dev.version versions) s.dev })

  pub start : ℕ → Call (State W) (Unit {0})
  unfolding set_up ask_version store_version detect_layout
  start model = do
    set_up model
    v ← ask_version (if is_ble iostream.transport then 2 else 0)
    store_version v
    if is_ble iostream.transport then ble_handshake iostream else return tt
    detect_layout

  -- The device that a successful start leaves, or the status with which it was given up.
  pub open_result : Result (Unit {0}) × State W → Result Device × W
  open_result (ok _, s) = (ok s.dev, s.env)
  open_result (err e, s) = (err e, s.env)

  -- `oceanic_atom2_device_open`; `memory` says whether the allocation succeeds.
  pub device_open : Bool → Device → ℕ → Call W Device
  unfolding init start open_result
  device_open memory base model env =
      let opened = open_result (start model (record { dev = init base model; env = env })) in
      if memory then opened else (err no_memory, env)
