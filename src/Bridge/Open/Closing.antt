-- ===== src/Bridge/Open/Closing.antt =====
-- What `close_device_data` gives back.
use libdc_swift.Prelude.{ℕ, List, none, ok, err, Result, arith}
use libdc_swift.Bridge.Types.{DeviceData, State, Resource, Holds, HoldsOrFree, Advances}
use libdc_swift.Bridge.Platform.{Platform}
use libdc_swift.Bridge.Stream.{iostream_close}
use libdc_swift.Bridge.Open.{
  close_device_data, close_fingerprint, close_model, close_device, close_iostream, close_context,
  or_close,
}

-- The structure with every pointer that `close_device_data` resets set to null.
abbrev pub closed : DeviceData → DeviceData
closed d = record d {
  fingerprint = none;
  model = none;
  device = none;
  iostream = none;
  context = none;
  descriptor = none;
}

module _ {W : Type 0} (platform : Platform W) (rest : List Resource) (bad : ℕ) where
  close_fingerprint-Holds :
      (d : DeviceData) {s : State W}
      → Holds d rest bad s
      → Holds (record d { fingerprint = none }) rest bad (close_fingerprint platform s)
  unfolding close_fingerprint
  close_fingerprint-Holds d h = ground arith

  close_model-Holds :
      (d : DeviceData) {s : State W}
      → Holds (record d { fingerprint = none }) rest bad s
      → Holds (record d { fingerprint = none; model = none }) rest bad (close_model platform s)
  unfolding close_model
  close_model-Holds d h = ground arith

  close_device-Holds :
      (d : DeviceData) {s : State W}
      → Holds (record d { fingerprint = none; model = none }) rest bad s
      → Holds
          (record d { fingerprint = none; model = none; device = none })
          rest
          bad
          (close_device platform s)
  unfolding close_device
  close_device-Holds d h = ground arith

  close_iostream-Holds :
      (d : DeviceData) {s : State W}
      → Holds (record d { fingerprint = none; model = none; device = none }) rest bad s
      → Holds
          (record d { fingerprint = none; model = none; device = none; iostream = none })
          rest
          bad
          (close_iostream platform s)
  unfolding close_iostream iostream_close
  close_iostream-Holds d h = ground arith

  close_context-Holds :
      (d : DeviceData) {s : State W}
      → Holds
          (record d { fingerprint = none; model = none; device = none; iostream = none })
          rest
          bad
          s
      → Holds
          (record d {
            fingerprint = none;
            model = none;
            device = none;
            iostream = none;
            context = none;
          })
          rest
          bad
          (close_context platform s)
  unfolding close_context
  close_context-Holds d h = ground arith

  -- Closing gives back everything that the structure holds and nothing else, each resource once, and
  -- leaves every pointer null: a second call would release nothing.
  pub close_device_data-Holds :
      (d : DeviceData) (s : State W)
      → Holds d rest bad s
      → Holds (closed d) rest bad (close_device_data platform s)
  unfolding close_device_data
  close_device_data-Holds d s h =
      let unnamed = close_model-Holds d (close_fingerprint-Holds d h) in
      let h' = close_context-Holds d (close_iostream-Holds d (close_device-Holds d unnamed)) in
      ground (arith, h')

  pub or_close-HoldsOrFree :
      {A : Type 0} (d : DeviceData) (d' : A → DeviceData) (p : Result A × State W)
      → Advances d d' rest bad p
      → HoldsOrFree d' rest bad (or_close platform p)
  unfolding or_close
  or_close-HoldsOrFree d d' (ok a, s) h = h
  or_close-HoldsOrFree d d' (err e, s) h =
      let h' = close_device_data-Holds d s h in (h'.held_is, h'.bad_is)
