-- ===== src/Bridge/Types.antt =====
-- The data of Sources/LibDCBridge/include/configuredc.h, and what the bridge holds: the resources
-- that it has acquired from libdivecomputer, from the allocator and from Swift, and must give back.
pub use libdc_swift.Libdc.{DevInfo}
use libdc_swift.Prelude.{
  ℕ, ◌+◌, Bool, false, List, [], ◌∷◌, ◌++◌, Option, none, some, ◌==◌, if◌then◌else◌, Text, ◌≡◌,
  Result, ok, err,
}

-- `dc_descriptor_t`, by its accessor functions. The families and transports are numbers.
pub record Descriptor : Type 0 where
  pub vendor : Option Text
  pub product : Option Text
  pub family : ℕ
  pub model : ℕ
  pub transports : ℕ

-- `ble_stream_t`: the address of the structure and its fields that are not fixed. Its transport is
-- always DC_TRANSPORT_BLE and its vtable the one of this file.
pub record BleStream : Type 0 where
  pub address : ℕ
  pub ble_object : ℕ

-- `dc_event_progress_t` of libdivecomputer
pub record Progress : Type 0 where
  pub current : ℕ
  pub maximum : ℕ

-- A block of memory with bytes in it: where it is and what it holds.
pub record Block : Type 0 where
  pub address : ℕ
  pub bytes : Text

-- `device_data_t`. A null pointer is `none`; `have_devinfo` and `devinfo`, and so the progress, are
-- one option each. `fsize` is the length of the fingerprint's bytes. `lookup_fingerprint` says
-- whether Swift has installed its callback. `have_clock`, `clock`, `fdeviceid` and `fdiveid` are
-- never written in C and are left out.
pub record DeviceData : Type 0 where
  pub device : Option ℕ
  pub context : Option ℕ
  pub iostream : Option BleStream
  pub descriptor : Option Descriptor
  pub devinfo : Option DevInfo
  pub progress : Option Progress
  pub fingerprint : Option Block
  pub lookup_fingerprint : Bool
  pub model : Option Block

-- `memset (data, 0, sizeof (device_data_t))`
abbrev pub cleared : DeviceData
cleared = record {
  device = none;
  context = none;
  iostream = none;
  descriptor = none;
  devinfo = none;
  progress = none;
  fingerprint = none;
  lookup_fingerprint = false;
  model = none;
}

-- What is acquired and has to be given back, with the handle or address.
pub data Resource : Type 0 where
  context iterator ble_object iostream device parser block : ℕ → Resource

abbrev pub same_resource : Resource → Resource → Bool
same_resource (context m) (context n) = m == n
same_resource (iterator m) (iterator n) = m == n
same_resource (ble_object m) (ble_object n) = m == n
same_resource (iostream m) (iostream n) = m == n
same_resource (device m) (device n) = m == n
same_resource (parser m) (parser n) = m == n
same_resource (block m) (block n) = m == n
same_resource _ _ = false

-- The environment, the structure behind `data`, the resources that are held, the latest first, and
-- how many times something was given back that was not held.
pub record State (W : Type 0) : Type 0 where
  pub env : W
  pub data_of : DeviceData
  pub held : List Resource
  pub bad_releases : ℕ

-- The resources without the first occurrence of one, if it occurs.
abbrev pub without : Resource → List Resource → Option (List Resource)
without r [] = none
without r (q ∷ qs) =
    if same_resource r q
    then some qs
    else elim (without r qs) [ none ↦ none | some rest ↦ some (q ∷ rest) ]

abbrev pub acquire : {W : Type 0} → Resource → State W → State W
acquire r s = record s { held = r ∷ s.held }

abbrev pub release : {W : Type 0} → Resource → State W → State W
release r s = elim (without r s.held) [
  | some rest ↦ record s { held = rest }
  | none ↦ record s { bad_releases = s.bad_releases + 1 }
]

abbrev pub owned_block : Option Block → List Resource
owned_block none = []
owned_block (some b) = block b.address ∷ []

abbrev pub owned_device : Option ℕ → List Resource
owned_device none = []
owned_device (some d) = device d ∷ []

abbrev pub owned_stream : Option BleStream → List Resource
owned_stream none = []
owned_stream (some s) = iostream s.address ∷ ble_object s.ble_object ∷ []

abbrev pub owned_context : Option ℕ → List Resource
owned_context none = []
owned_context (some c) = context c ∷ []

-- What the structure holds, above `rest`, in the order in which `close_device_data` gives it back; of
-- a stream the BLE object is given back before the structure around it.
abbrev pub owned : DeviceData → List Resource → List Resource
owned d rest =
    owned_block d.fingerprint
    ++ (owned_block d.model
        ++ (owned_device d.device
            ++ (owned_stream d.iostream ++ (owned_context d.context ++ rest))))

-- The structure is `d`, and it holds what lies above `rest`; `bad` is the number of bad releases.
pub record Holds {W : Type 0} (d : DeviceData) (rest : List Resource) (bad : ℕ) (s : State W)
    : Type 0 where
  pub data_is : s.data_of ≡ d
  pub held_is : s.held ≡ owned d rest
  pub bad_is : s.bad_releases ≡ bad

-- A call that started with nothing above `rest` has ended with `d`, or it has failed and nothing is
-- above `rest` again.
abbrev pub HoldsOrFree :
    {W A : Type 0} → (A → DeviceData) → List Resource → ℕ → Result A × State W → Type 0
HoldsOrFree d rest bad (ok a, s) = Holds (d a) rest bad s
HoldsOrFree d rest bad (err e, s) = (s.held ≡ rest) × (s.bad_releases ≡ bad)

-- A step from `d` to `d'`, which changes nothing where it fails.
abbrev pub Advances :
    {W A : Type 0} → DeviceData → (A → DeviceData) → List Resource → ℕ → Result A × State W → Type 0
Advances d d' rest bad (ok a, s) = Holds (d' a) rest bad s
Advances d d' rest bad (err e, s) = Holds d rest bad s
