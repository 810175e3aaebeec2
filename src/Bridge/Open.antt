-- ===== src/Bridge/Open.antt =====
-- Opening and closing a BLE dive computer: `open_ble_device`, `close_device_data` and
-- `open_ble_device_with_identification` of Sources/LibDCBridge/src/configuredc.c.
pub mod Closing
pub mod Opening
pub mod Identified
pub mod Attempts
pub mod Leaking
mod Tests
use libdc_swift.Prelude.{
  ℕ, ◌+◌, Bool, true, false, List, [], ◌∷◌, Option, none, some, ltb, ◌&&◌, ◌||◌, not, ◌==◌,
  if◌then◌else◌, Call, Result, ok, err, Error, ◌>>=◌, ◌>>◌, bind, return, fail, invalid_args,
  no_memory, timeout, Text,
}
use libdc_swift.Bridge.Types.{
  Descriptor, DeviceData, BleStream, Block, cleared, State, Resource, context, device, block,
  acquire, release,
}
use libdc_swift.Bridge.Platform.{Platform, on_env, change_env}
use libdc_swift.Bridge.Stream.{malloc, iostream_close, ble_packet_open}
use libdc_swift.Bridge.Descriptors.{
  find_descriptor_by_model, get_device_info_from_name, allocate_name,
}

-- DC_EVENT_DEVINFO | DC_EVENT_PROGRESS | DC_EVENT_CLOCK
abbrev pub events : ℕ
events = 4 + 2 + 8

abbrev pub set_data : {W : Type 0} → (DeviceData → DeviceData) → State W → State W
set_data f s = record s { data_of = f s.data_of }

-- DC_STATUS_IO or DC_STATUS_TIMEOUT: the device was reached and did not answer.
pub is_unanswered : Error → Bool
is_unanswered Error.io = true
is_unanswered timeout = true
is_unanswered _ = false

module _ {W : Type 0} (platform : Platform W) where
  -- The steps of `close_device_data`, each of which does nothing where the pointer is null.
  pub close_fingerprint : State W → State W
  close_fingerprint s = elim s.data_of.fingerprint [
    | none ↦ s
    | some f ↦ release (block f.address) (set_data (λ d. record d { fingerprint = none }) s)
  ]

  pub close_model : State W → State W
  close_model s = elim s.data_of.model [
    | none ↦ s
    | some m ↦ release (block m.address) (set_data (λ d. record d { model = none }) s)
  ]

  pub close_device : State W → State W
  close_device s = elim s.data_of.device [
    | none ↦ s
    | some h ↦
        let closed = (on_env (platform.device_close h) s).1 in
        release (device h) (set_data (λ d. record d { device = none }) closed)
  ]

  pub close_iostream : State W → State W
  close_iostream s = elim s.data_of.iostream [
    | none ↦ s
    | some b ↦
        let closed = (iostream_close platform b s).1 in
        set_data (λ d. record d { iostream = none }) closed
  ]

  pub close_context : State W → State W
  close_context s = elim s.data_of.context [
    | none ↦ s
    | some c ↦
        let freed = change_env (platform.context_free c) s in
        release (context c) (set_data (λ d. record d { context = none }) freed)
  ]

  pub close_device_data : State W → State W
  unfolding close_fingerprint close_model close_device close_iostream close_context
  close_device_data s =
      let closed =
        close_context (close_iostream (close_device (close_model (close_fingerprint s)))) in
      set_data (λ d. record d { descriptor = none }) closed

  -- A failure closes what was opened so far, and is returned.
  pub or_close : {A : Type 0} → Result A × State W → Result A × State W
  unfolding close_device_data
  or_close (ok a, s) = (ok a, s)
  or_close (err e, s) = (err e, close_device_data s)

  -- `dc_context_new (&data->context)`
  pub new_context : Call (State W) ℕ
  new_context = do
    c ← on_env platform.context_new
    λ s. (ok c, acquire (context c) (set_data (λ d. record d { context = some c }) s))

  -- `ble_packet_open (&data->iostream, …)`
  pub open_stream : ℕ → Text → Call (State W) BleStream
  open_stream c devaddr = do
    b ← ble_packet_open platform c devaddr
    λ s. (ok b, set_data (λ d. record d { iostream = some b }) s)

  -- `dc_device_open (&data->device, …)`
  pub open_device : ℕ → Descriptor → BleStream → Call (State W) ℕ
  open_device c descriptor b = do
    h ← on_env (platform.device_open c descriptor b.address)
    λ s. (ok h, acquire (device h) (set_data (λ d. record d { device = some h }) s))

  -- The descriptor and the model's name are kept; without memory the name stays null.
  pub keep_descriptor : Descriptor → State W → State W
  keep_descriptor descriptor s =
      let (name, s1) = allocate_name platform descriptor s in
      set_data (λ d. record d { descriptor = some descriptor; model = name }) s1

  -- `open_ble_device`. `data` is not null here: the structure is `data_of`. A null address is `none`.
  pub open_ble_device : Option Text → ℕ → ℕ → Call (State W) (Unit {0})
  unfolding new_context or_close open_stream open_device keep_descriptor
  open_ble_device none family model = fail invalid_args
  open_ble_device (some devaddr) family model = do
    λ s. (ok tt, set_data (λ d. cleared) s)
    c ← new_context
    λ s. (ok tt, change_env (platform.install_libdc_logger c) s)
    descriptor ← λ s. or_close (find_descriptor_by_model platform family model s)
    b ← λ s. or_close (open_stream c devaddr s)
    h ← λ s. or_close (open_device c descriptor b s)
    λ s. or_close (on_env (platform.device_set_events h events) s)
    λ s. (ok tt, keep_descriptor descriptor s)

  -- A failure frees the structure, and is returned.
  pub or_free : {A : Type 0} → ℕ → Result A × State W → Result A × State W
  or_free address (ok a, s) = (ok a, s)
  or_free address (err e, s) = (err e, release (block address) s)

  -- The way by the advertised name.
  pub open_by_name : ℕ → Text → Option Text → Call (State W) (Unit {0})
  unfolding or_free open_ble_device
  open_by_name address name devaddr = do
    info ← λ s. or_free address (get_device_info_from_name platform name s)
    λ s. or_free address (open_ble_device devaddr info.0 info.1 s)

  -- What follows an attempt with the stored configuration.
  pub or_identify :
      ℕ → Text → Option Text → Result (Unit {0}) × State W → Result (Unit {0}) × State W
  unfolding is_unanswered open_by_name
  or_identify address name devaddr (ok u, s) = (ok u, s)
  or_identify address name devaddr (err e, s) =
      if is_unanswered e
      then (err e, release (block address) s)
      else open_by_name address name devaddr s

  -- What is done with the new structure at `address`. DC_FAMILY_NULL is 0.
  pub open_with : ℕ → Text → Option Text → ℕ → ℕ → Call (State W) (Unit {0})
  unfolding or_identify
  open_with address name devaddr stored_family stored_model s =
      let fresh = set_data (λ d. cleared) s in
      let stored =
        or_identify address name devaddr
          (open_ble_device devaddr stored_family stored_model fresh) in
      if not (stored_family == 0) && not (stored_model == 0)
      then stored
      else open_by_name address name devaddr fresh

  -- What follows `calloc`.
  pub open_in : Text → Option Text → ℕ → ℕ → Option ℕ × State W → Result (Unit {0}) × State W
  unfolding open_with
  open_in name devaddr stored_family stored_model (none, s) = (err no_memory, s)
  open_in name devaddr stored_family stored_model (some address, s) =
      open_with address name devaddr stored_family stored_model (acquire (block address) s)

  -- `open_ble_device_with_identification`. On success `*out_data` is the new structure, `data_of`.
  pub open_ble_device_with_identification : Text → Option Text → ℕ → ℕ → Call (State W) (Unit {0})
  unfolding open_in
  open_ble_device_with_identification name devaddr stored_family stored_model s =
      open_in name devaddr stored_family stored_model (malloc platform s)
