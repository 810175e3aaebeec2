-- ===== src/Bridge/Open/Identified.antt =====
-- What `open_ble_device_with_identification` holds when it ends.
use mathlib.Core.Path.{subst₂}
use libdc_swift.Prelude.{
  ℕ, ◌≡◌, refl, Bool-cases, inl, inr, List, ◌∷◌, Option, none, some, ok, err, Error, Result, bind,
  Call, arith, Text, not, ◌==◌, ◌&&◌,
}
use libdc_swift.Bridge.Types.{State, Resource, block, cleared, Holds, release, acquire}
use libdc_swift.Bridge.Platform.{Platform}
use libdc_swift.Bridge.Stream.{malloc}
use libdc_swift.Bridge.Descriptors.{get_device_info_from_name}
use libdc_swift.Bridge.Descriptors.Models.{Same}
use libdc_swift.Bridge.Descriptors.Holding.{get_device_info_from_name-Same}
use libdc_swift.Bridge.Open.{
  open_ble_device, open_ble_device_with_identification, open_with, open_by_name, open_in,
  or_identify, or_free, is_unanswered, set_data,
}
use libdc_swift.Bridge.Open.Opening.{Opens, IsOpened, open_ble_device-Opens}

-- The whole call has acquired the structure's block and what the structure holds, or nothing.
abbrev pub Identifies : {W : Type 0} → List Resource → ℕ → Result (Unit {0}) × State W → Type 0
Identifies rest bad (ok u, s) =
    IsOpened s.data_of × ((a : ℕ) × Holds s.data_of (block a ∷ rest) bad s)
Identifies rest bad (err e, s) = (s.held ≡ rest) × (s.bad_releases ≡ bad)

Opens-at :
    {W : Type 0} {rest rest' : List Resource} {bad bad' : ℕ} (p : Result (Unit {0}) × State W)
    → rest ≡ rest'
    → bad ≡ bad'
    → Opens rest bad p
    → Opens rest' bad' p
Opens-at p e e' h = subst₂ (λ r b. Opens r b p) e e' h

module _ {W : Type 0} (platform : Platform W) (rest : List Resource) (bad : ℕ) (a : ℕ) where
  or_free-Identifies :
      (p : Result (Unit {0}) × State W)
      → Opens (block a ∷ rest) bad p
      → Identifies rest bad (or_free platform a p)
  unfolding or_free
  or_free-Identifies (ok u, s) h = (h.0, (a, h.1))
  or_free-Identifies (err e, s) h = ground arith

  bind-Identifies :
      {A : Type 0} (s : State W) (p : Result A × State W) (f : A → Call (State W) (Unit {0}))
      → (s.held ≡ block a ∷ rest) × (s.bad_releases ≡ bad)
      → Same s p.1
      → ((i : A) (t : State W)
          → (t.held ≡ block a ∷ rest) × (t.bad_releases ≡ bad)
          → Identifies rest bad (f i t))
      → Identifies rest bad (bind (or_free platform a p) f)
  unfolding or_free
  bind-Identifies s (ok i, t) f h k next = next i t (ground arith)
  bind-Identifies s (err e, t) f h k next = ground arith

  open_by_name-Identifies :
      (name : Text) (devaddr : Option Text) (s : State W)
      → (s.held ≡ block a ∷ rest) × (s.bad_releases ≡ bad)
      → Identifies rest bad (open_by_name platform a name devaddr s)
  unfolding open_by_name
  open_by_name-Identifies name devaddr s h =
      bind-Identifies s (get_device_info_from_name platform name s) _ h
        (get_device_info_from_name-Same platform name s)
        (λ info t k.
          or_free-Identifies (open_ble_device platform devaddr info.0 info.1 t)
            (Opens-at _ k.0 k.1 (open_ble_device-Opens platform devaddr info.0 info.1 t)))

  after_release :
      (e : Error) (s : State W)
      → (s.held ≡ block a ∷ rest) × (s.bad_releases ≡ bad)
      → Identifies rest bad (err e, release (block a) s)
  after_release e s h = ground arith

  or_identify-Identifies :
      (name : Text) (devaddr : Option Text) (p : Result (Unit {0}) × State W)
      → Opens (block a ∷ rest) bad p
      → Identifies rest bad (or_identify platform a name devaddr p)
  unfolding or_identify
  or_identify-Identifies name devaddr (ok u, s) h = (h.0, (a, h.1))
  or_identify-Identifies name devaddr (err e, s) h = elim (Bool-cases (is_unanswered e)) [
    | inl t ↦ rw t (after_release e s h)
    | inr f ↦ rw f (open_by_name-Identifies name devaddr s h)
  ]

  open_with-Identifies :
      (name : Text) (devaddr : Option Text) (family model : ℕ) (s : State W)
      → (s.held ≡ block a ∷ rest) × (s.bad_releases ≡ bad)
      → Identifies rest bad (open_with platform a name devaddr family model s)
  unfolding open_with
  open_with-Identifies name devaddr family model s h =
      let fresh = set_data (λ d. cleared) s in
      elim (Bool-cases (not (family == 0) && not (model == 0))) [
        | inl t ↦ rw t (
            or_identify-Identifies name devaddr
              (open_ble_device platform devaddr family model fresh)
              (Opens-at _ h.0 h.1 (open_ble_device-Opens platform devaddr family model fresh)))
        | inr f ↦ rw f (open_by_name-Identifies name devaddr fresh h)
      ]

module _ {W : Type 0} (platform : Platform W) where
  open_in-Identifies :
      (rest : List Resource) (bad : ℕ) (name : Text) (devaddr : Option Text) (family model : ℕ)
      (p : Option ℕ × State W)
      → (p.1.held ≡ rest) × (p.1.bad_releases ≡ bad)
      → Identifies rest bad (open_in platform name devaddr family model p)
  unfolding open_in
  open_in-Identifies rest bad name devaddr family model (none, s) h = h
  open_in-Identifies rest bad name devaddr family model (some a, s) h =
      open_with-Identifies platform rest bad a name devaddr family model (acquire (block a) s)
        (ground arith)

  -- Opening with identification acquires the block of the structure and what the structure holds
  -- then, or fails with nothing acquired, whichever of the two attempts were made. Nothing is
  -- released twice.
  pub open_ble_device_with_identification-Identifies :
      (name : Text) (devaddr : Option Text) (family model : ℕ) (s : State W)
      → Identifies s.held s.bad_releases
          (open_ble_device_with_identification platform name devaddr family model s)
  unfolding open_ble_device_with_identification malloc
  open_ble_device_with_identification-Identifies name devaddr family model s =
      open_in-Identifies s.held s.bad_releases name devaddr family model (malloc platform s)
        (refl, refl)
