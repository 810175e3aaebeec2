-- ===== src/Bridge/Open/Attempts.antt =====
-- Which attempts `open_ble_device_with_identification` makes.
use libdc_swift.Prelude.{
  ℕ, ◌≡◌, ◌≢◌, refl, ◌⊎◌, inl, inr, Bool-cases, true, ◌∷◌, Option, none, some, ok, err, Error,
  Result, timeout, no_memory, arith, bind, Text, not, ◌==◌, ◌&&◌,
}
use libdc_swift.Bridge.Types.{State, block, cleared, release}
use libdc_swift.Bridge.Platform.{Platform}
use libdc_swift.Bridge.Stream.{malloc}
use libdc_swift.Bridge.Descriptors.{get_device_info_from_name}
use libdc_swift.Bridge.Open.{
  open_ble_device, open_ble_device_with_identification, open_with, open_by_name, open_in,
  or_identify, or_free, is_unanswered,
}

-- The device was reached and did not answer.
abbrev pub IsSilence : Error → Type 0
IsSilence e = (e ≡ Error.io) ⊎ (e ≡ timeout)

is_unanswered-IsSilence : (e : Error) → is_unanswered e ≡ true → IsSilence e
unfolding is_unanswered
is_unanswered-IsSilence Error.io h = inl refl
is_unanswered-IsSilence timeout h = inr refl
is_unanswered-IsSilence _ h = absurd (cc)

IsSilence-is_unanswered : (e : Error) → IsSilence e → is_unanswered e ≡ true
unfolding is_unanswered
IsSilence-is_unanswered e (inl h) = rw h refl
IsSilence-is_unanswered e (inr h) = rw h refl

module _ {W : Type 0} (platform : Platform W) (name : Text) (devaddr : Option Text) where
  -- One attempt with the family and model that the name stands for, with the structure at `a`.
  pub data ByName (a : ℕ) (s : State W) : Result (Unit {0}) × State W → Type 0 where
    unknown :
        {e : Error} {t : State W}
        → get_device_info_from_name platform name s ≡ (err e, t)
        → ByName a s (err e, release (block a) t)
    found :
        {family model : ℕ} {t t' : State W}
        → get_device_info_from_name platform name s ≡ (ok (family, model), t)
        → open_ble_device platform devaddr family model t ≡ (ok tt, t')
        → ByName a s (ok tt, t')
    unopened :
        {family model : ℕ} {e : Error} {t t' : State W}
        → get_device_info_from_name platform name s ≡ (ok (family, model), t)
        → open_ble_device platform devaddr family model t ≡ (err e, t')
        → ByName a s (err e, release (block a) t')

  -- The attempts with a stored family and model, 0 standing for none, and their outcome. The
  -- attempts start with the cleared structure in the new block `a`.
  pub data Attempts (family model : ℕ) (s : State W) : Result (Unit {0}) × State W → Type 0 where
    unallocated :
        {t : State W} → malloc platform s ≡ (none, t) → Attempts family model s (err no_memory, t)
    stored :
        {a : ℕ} {t t' : State W}
        → malloc platform s ≡ (some a, t)
        → family ≢ 0
        → model ≢ 0
        → open_ble_device platform devaddr family model
            (record t { data_of = cleared; held = block a ∷ t.held })
          ≡ (ok tt, t')
        → Attempts family model s (ok tt, t')
    silent :
        {a : ℕ} {e : Error} {t t' : State W}
        → malloc platform s ≡ (some a, t)
        → family ≢ 0
        → model ≢ 0
        → open_ble_device platform devaddr family model
            (record t { data_of = cleared; held = block a ∷ t.held })
          ≡ (err e, t')
        → IsSilence e
        → Attempts family model s (err e, release (block a) t')
    mistaken :
        {a : ℕ} {e : Error} {t t' : State W} {r : Result (Unit {0}) × State W}
        → malloc platform s ≡ (some a, t)
        → family ≢ 0
        → model ≢ 0
        → open_ble_device platform devaddr family model
            (record t { data_of = cleared; held = block a ∷ t.held })
          ≡ (err e, t')
        → (IsSilence e → ⊥)
        → ByName a t' r
        → Attempts family model s r
    not_stored :
        {a : ℕ} {t : State W} {r : Result (Unit {0}) × State W}
        → malloc platform s ≡ (some a, t)
        → (family ≡ 0) ⊎ (model ≡ 0)
        → ByName a (record t { data_of = cleared; held = block a ∷ t.held }) r
        → Attempts family model s r

  opened-ByName :
      (a family model : ℕ) (s t : State W) (p : Result (Unit {0}) × State W)
      → get_device_info_from_name platform name s ≡ (ok (family, model), t)
      → open_ble_device platform devaddr family model t ≡ p
      → ByName a s (or_free platform a p)
  unfolding or_free
  opened-ByName a family model s t (ok u, t') known h = found known h
  opened-ByName a family model s t (err e, t') known h = unopened known h

  named-ByName :
      (a : ℕ) (s : State W) (p : Result (ℕ × ℕ) × State W)
      → get_device_info_from_name platform name s ≡ p
      → ByName a s (
          bind
            (or_free platform a p)
            (λ info s. or_free platform a (open_ble_device platform devaddr info.0 info.1 s)))
  unfolding or_free
  named-ByName a s (err e, t) h = unknown h
  named-ByName a s (ok (family, model), t) h =
      opened-ByName a family model s t (open_ble_device platform devaddr family model t) h refl

  open_by_name-ByName : (a : ℕ) (s : State W) → ByName a s (open_by_name platform a name devaddr s)
  unfolding open_by_name
  open_by_name-ByName a s = named-ByName a s (get_device_info_from_name platform name s) refl

  module _ (family model : ℕ) (s : State W) where
    or_identify-Attempts :
        (a : ℕ) (t : State W) (p : Result (Unit {0}) × State W)
        → malloc platform s ≡ (some a, t)
        → family ≢ 0
        → model ≢ 0
        → open_ble_device platform devaddr family model
            (record t { data_of = cleared; held = block a ∷ t.held })
          ≡ p
        → Attempts family model s (or_identify platform a name devaddr p)
    unfolding or_identify
    or_identify-Attempts a t (ok u, t') got f m h = stored got f m h
    or_identify-Attempts a t (err e, t') got f m h = elim (Bool-cases (is_unanswered e)) [
      | inl quiet ↦ rw quiet (silent got f m h (is_unanswered-IsSilence e quiet))
      | inr other ↦ rw other (
          mistaken got f m h (λ x. absurd (cc (IsSilence-is_unanswered e x, other)))
            (open_by_name-ByName a t'))
    ]

    open_in-Attempts :
        (p : Option ℕ × State W)
        → malloc platform s ≡ p
        → Attempts family model s (open_in platform name devaddr family model p)
    unfolding open_in open_with
    open_in-Attempts (none, t) got = unallocated got
    open_in-Attempts (some a, t) got = elim (Bool-cases (not (family == 0) && not (model == 0))) [
      | inl both ↦ rw both (
          or_identify-Attempts a t _ got (λ z. absurd (ground (arith, z, both)))
            (λ z. absurd (ground (arith, z, both))) refl)
      | inr missing ↦ rw missing (
          not_stored got (ground (arith, missing))
            (open_by_name-ByName a (record t { data_of = cleared; held = block a ∷ t.held })))
    ]

    -- Opening with identification makes an attempt with the stored family and model, where there
    -- are both, and one with what the name stands for: the second one only if there is no stored
    -- one, or if the first has failed otherwise than with DC_STATUS_IO or DC_STATUS_TIMEOUT. A
    -- device that was reached and did not answer is never contacted again under another model: that
    -- status is returned, and nothing more is done but to free the structure. No further attempt is
    -- made in any case. A failure, of the search by the name too, frees the structure and is
    -- returned, and without memory no attempt is made.
    pub open_ble_device_with_identification-Attempts :
        Attempts family model s
          (open_ble_device_with_identification platform name devaddr family model s)
    unfolding open_ble_device_with_identification
    open_ble_device_with_identification-Attempts = open_in-Attempts (malloc platform s) refl
