-- ===== src/Bridge/Events/Holding.antt =====
-- What a device event leaves the bridge holding.
use libdc_swift.Prelude.{
  ℕ, ◌≡◌, ◌≢◌, true, false, List, ◌∷◌, Option, none, some, arith, length, Text, Bool,
}
use libdc_swift.Bridge.Types.{DeviceData, DevInfo, Block, State, Resource, block, Holds}
use libdc_swift.Bridge.Platform.{Platform}
use libdc_swift.Bridge.Events.{
  Event, devinfo, progress, other, ble_device_event_cb, look_up_if, look_up, use_fingerprint,
}
use libdc_swift.Bridge.Events.Serial.{serial_text}

-- The structure keeps an answer of the lookup only if it has bytes.
abbrev pub HasBytes : Option Block → Type 0
HasBytes none = Unit
HasBytes (some f) = length f.bytes ≢ 0

-- What an event leaves of the structure but what it is about.
abbrev pub SameConnection : DeviceData → DeviceData → Type 0
SameConnection d d' =
    (d'.device ≡ d.device)
    × (d'.context ≡ d.context)
    × (d'.iostream ≡ d.iostream)
    × (d'.descriptor ≡ d.descriptor)
    × (d'.model ≡ d.model)

module _ {W : Type 0} (platform : Platform W) where
  -- The answer of the lookup that a DEVINFO event makes, where it makes one.
  abbrev pub answer_of : State W → Text → DevInfo → Option Block
  answer_of s m info = (platform.lookup_fingerprint m (serial_text info.serial) s.env).0

  use_fingerprint-Holds :
      (device : ℕ) (f : Option Block) (d : DeviceData) (rest : List Resource) (bad : ℕ)
      (s : State W)
      → d.fingerprint ≡ none
      → HasBytes f
      → Holds d rest bad s
      → let s' =
          use_fingerprint platform device f
            (elim f [ none ↦ s | some b ↦ record s { held = block b.address ∷ s.held } ]) in
        Holds s'.data_of rest bad s' × SameConnection d s'.data_of
  unfolding use_fingerprint
  use_fingerprint-Holds device none d rest bad s e b h = ground arith
  use_fingerprint-Holds device (some f) d rest bad s e b h = ground arith

  -- A call that adds to the structure no more than it acquires.
  abbrev pub Keeping : DeviceData → List Resource → ℕ → State W → Type 0
  Keeping d rest bad s = Holds s.data_of rest bad s × SameConnection d s.data_of

  look_up_if-Keeping :
      (installed : Bool) (device : ℕ) (model : Option Block) (info : DevInfo) (d : DeviceData)
      (rest : List Resource) (bad : ℕ) (s : State W)
      → d.fingerprint ≡ none
      → ((m : Text) → HasBytes (answer_of s m info))
      → Holds d rest bad s
      → Keeping d rest bad (look_up_if platform installed device model info s)
  unfolding look_up_if look_up
  look_up_if-Keeping true device (some m) info d rest bad s e b h =
      use_fingerprint-Holds device (answer_of s m.bytes info) d rest bad
        (record s { env = (platform.lookup_fingerprint m.bytes (serial_text info.serial) s.env).1 })
        e (b m.bytes) (ground arith)
  look_up_if-Keeping true device none info d rest bad s e b h = ground arith
  look_up_if-Keeping false device _ info d rest bad s e b h = ground arith

  -- An event of a device whose structure has no fingerprint yet leaves the structure holding exactly
  -- what was acquired, the fingerprint that a DEVINFO event looked up included, and leaves the
  -- connection, the descriptor and the model as they were. It is assumed that the lookup gives no
  -- block without bytes.
  pub ble_device_event_cb-Keeping :
      (device : ℕ) (e : Event) (d : DeviceData) (rest : List Resource) (bad : ℕ) (s : State W)
      → d.fingerprint ≡ none
      → ((w : W) (m serial : Text) → HasBytes (platform.lookup_fingerprint m serial w).0)
      → Holds d rest bad s
      → Keeping d rest bad (ble_device_event_cb platform device e s)
  unfolding ble_device_event_cb
  ble_device_event_cb-Keeping device (devinfo info) d rest bad s e b h =
      let s1 = record s { data_of = record s.data_of { devinfo = some info } } in
      look_up_if-Keeping s.data_of.lookup_fingerprint device s.data_of.model info
        (record d { devinfo = some info }) rest bad s1 e (λ m. b s.env m (serial_text info.serial))
        (ground arith)
  ble_device_event_cb-Keeping device (progress p) d rest bad s e b h = ground arith
  ble_device_event_cb-Keeping device other d rest bad s e b h = ground arith

  -- The bytes of the lookup replace what the structure pointed to.
  pub devinfo_replaces :
      (device : ℕ) (info : DevInfo) (s : State W) (model new : Block)
      → s.data_of.lookup_fingerprint ≡ true
      → s.data_of.model ≡ some model
      → answer_of s model.bytes info ≡ some new
      → length new.bytes ≢ 0
      → let s' = ble_device_event_cb platform device (devinfo info) s in
        (s'.held ≡ block new.address ∷ s.held)
        × (s'.data_of ≡ record s.data_of { devinfo = some info; fingerprint = some new })
  unfolding ble_device_event_cb look_up_if look_up use_fingerprint
  devinfo_replaces device info s model new installed m found size = ground arith
