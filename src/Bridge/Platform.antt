-- ===== src/Bridge/Platform.antt =====
-- What the bridge calls and does not implement: libdivecomputer, the Objective-C and Swift side
-- (BLEBridge.h) and the allocator, over an environment `W`.
use libdc_swift.Prelude.{ℕ, Bool, List, Option, Call, Text}
use libdc_swift.Bridge.Types.{Descriptor, State, Block}

pub record Platform (W : Type 0) : Type 0 where
  -- `dc_context_new`, `dc_context_free`
  pub context_new : Call W ℕ
  pub context_free : ℕ → W → W
  -- `dc_descriptor_iterator`: an iterator, with the descriptors that `dc_iterator_next` gives before
  -- it reports the end. `dc_descriptor_free` does nothing, and has no function here.
  pub descriptor_iterator : Call W (ℕ × List Descriptor)
  pub iterator_free : ℕ → W → W
  -- `dc_descriptor_filter (descriptor, DC_TRANSPORT_BLE, name)`
  pub descriptor_filter : Descriptor → Text → Bool
  -- `dc_device_open` of a context, a descriptor and the address of the stream
  pub device_open : ℕ → Descriptor → ℕ → Call W ℕ
  pub device_set_events : ℕ → ℕ → Call W (Unit {0})
  pub device_set_fingerprint : ℕ → Text → Call W (Unit {0})
  pub device_close : ℕ → Call W (Unit {0})
  -- `dc_parser_new2`
  pub parser_new2 : ℕ → Descriptor → List ℕ → Call W ℕ
  -- BLEBridge.h
  pub initialize_ble_manager : W → W
  pub install_libdc_logger : ℕ → W → W
  pub ble_can_connect_now : W → Bool × W
  pub create_ble_object : W → Option ℕ × W
  pub connect_to_ble_device : ℕ → Text → W → Bool × W
  pub free_ble_object : ℕ → W → W
  pub ble_set_timeout : ℕ → ℕ → Call W (Unit {0})
  pub ble_read : ℕ → ℕ → Call W (List ℕ)
  pub ble_write : ℕ → List ℕ → Call W ℕ
  pub ble_ioctl : ℕ → ℕ → ℕ → Call W (List ℕ)
  pub ble_sleep : ℕ → ℕ → Call W (Unit {0})
  pub ble_close : ℕ → Call W (Unit {0})
  -- the callback `lookup_fingerprint`, given the model and the serial number
  pub lookup_fingerprint : Text → Text → W → Option Block × W
  -- `malloc`, by the address of the new block
  pub malloc : W → Option ℕ × W

-- A call that reaches only the environment.
abbrev pub on_env : {W A : Type 0} → Call W A → Call (State W) A
on_env c s = let (r, env) = c s.env in (r, record s { env = env })

abbrev pub change_env : {W : Type 0} → (W → W) → State W → State W
change_env f s = record s { env = f s.env }
