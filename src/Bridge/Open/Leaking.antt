-- ===== src/Bridge/Open/Leaking.antt =====
-- What a second DEVINFO event leaves behind.
use libdc_swift.Prelude.{ℕ, ◌≡◌, ◌≢◌, true, List, ◌∷◌, Option, none, some, arith, length}
use libdc_swift.Bridge.Types.{DeviceData, DevInfo, Block, State, Resource, block, Holds, owned}
use libdc_swift.Bridge.Platform.{Platform}
use libdc_swift.Bridge.Stream.{iostream_close}
use libdc_swift.Bridge.Events.{devinfo, ble_device_event_cb}
use libdc_swift.Bridge.Events.Holding.{answer_of, devinfo_replaces}
use libdc_swift.Bridge.Open.Closing.{closed, close_device_data-Holds}
use libdc_swift.Bridge.Open.{
  close_device_data, close_fingerprint, close_model, close_device, close_iostream, close_context,
}

module _ {W : Type 0} (platform : Platform W) (rest : List Resource) (old : ℕ) where
  -- The structure is `d`, and above what it holds there is one more block.
  record HoldsBelow (d : DeviceData) (s : State W) : Type 0 where
    data_is : s.data_of ≡ d
    held_is : s.held ≡ block old ∷ owned d rest

  -- Another block than the lost one.
  abbrev IsOther : Option Block → Type 0
  IsOther none = Unit
  IsOther (some m) = m.address ≢ old

  close_fingerprint-HoldsBelow :
      (d : DeviceData) (new : Block) (s : State W)
      → s.data_of ≡ record d { fingerprint = some new }
      → s.held ≡ block new.address ∷ block old ∷ owned (record d { fingerprint = none }) rest
      → HoldsBelow (record d { fingerprint = none }) (close_fingerprint platform s)
  unfolding close_fingerprint
  close_fingerprint-HoldsBelow d new s same held = ground arith

  close_model-HoldsBelow :
      (d : DeviceData) {s : State W}
      → IsOther d.model
      → HoldsBelow (record d { fingerprint = none }) s
      → HoldsBelow (record d { fingerprint = none; model = none }) (close_model platform s)
  unfolding close_model
  close_model-HoldsBelow d o h = ground arith

  close_device-HoldsBelow :
      (d : DeviceData) {s : State W}
      → HoldsBelow (record d { fingerprint = none; model = none }) s
      → HoldsBelow
          (record d { fingerprint = none; model = none; device = none })
          (close_device platform s)
  unfolding close_device
  close_device-HoldsBelow d h = ground arith

  close_iostream-HoldsBelow :
      (d : DeviceData) {s : State W}
      → HoldsBelow (record d { fingerprint = none; model = none; device = none }) s
      → HoldsBelow
          (record d { fingerprint = none; model = none; device = none; iostream = none })
          (close_iostream platform s)
  unfolding close_iostream iostream_close
  close_iostream-HoldsBelow d h = ground arith

  close_context-HoldsBelow :
      (d : DeviceData) {s : State W}
      → HoldsBelow (record d { fingerprint = none; model = none; device = none; iostream = none }) s
      → HoldsBelow
          (record d {
            fingerprint = none;
            model = none;
            device = none;
            iostream = none;
            context = none;
          })
          (close_context platform s)
  unfolding close_context
  close_context-HoldsBelow d h = ground arith

  close_device_data-HoldsBelow :
      (d : DeviceData) (new : Block) (s : State W)
      → IsOther d.model
      → s.data_of ≡ record d { fingerprint = some new }
      → s.held ≡ block new.address ∷ block old ∷ owned (record d { fingerprint = none }) rest
      → HoldsBelow (closed d) (close_device_data platform s)
  unfolding close_device_data
  close_device_data-HoldsBelow d new s o same held =
      let unnamed = close_model-HoldsBelow d o (close_fingerprint-HoldsBelow d new s same held) in
      let h' =
        close_context-HoldsBelow d
          (close_iostream-HoldsBelow d (close_device-HoldsBelow d unnamed)) in
      ground (arith, h')

module _ {W : Type 0} (platform : Platform W) where
  -- A second DEVINFO event whose lookup gives bytes leaks the block of the first one: of a
  -- structure that holds all that was acquired above `rest`, a fingerprint among it, all is given
  -- back by closing it, but after another such event closing leaves the first fingerprint's block
  -- acquired. It is assumed that the name of the model is another block than the fingerprint.
  pub ble_device_event_cb-leaks :
      (device : ℕ) (info : DevInfo) (rest : List Resource) (bad : ℕ) (d : DeviceData) (s : State W)
      (model old new : Block)
      → Holds d rest bad s
      → d.lookup_fingerprint ≡ true
      → d.model ≡ some model
      → d.fingerprint ≡ some old
      → model.address ≢ old.address
      → answer_of platform s model.bytes info ≡ some new
      → length new.bytes ≢ 0
      → ((close_device_data platform s).held ≡ rest)
        × ((close_device_data platform (ble_device_event_cb platform device (devinfo info) s)).held
            ≡ block old.address ∷ rest)
  ble_device_event_cb-leaks device info rest bad d s model old new h installed m f other found
        size =
      let s' = ble_device_event_cb platform device (devinfo info) s in
      let (held, same) =
        devinfo_replaces platform device info s model new (ground (arith, h.data_is))
          (ground (arith, h.data_is)) found size in
      let after =
        close_device_data-HoldsBelow platform rest old.address (record d { devinfo = some info })
          new s' (rw m other) (ground (arith, same, h.data_is)) (ground (arith, held, h.held_is)) in
      ((close_device_data-Holds platform rest bad d s h).held_is, after.held_is)
