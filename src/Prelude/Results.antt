-- ===== src/Prelude/Results.antt =====
-- Results of fallible calls (`dc_status_t` and its out parameters), and the calls as functions of a
-- state. `ok` stands for DC_STATUS_SUCCESS, `err e` for each other status.
use mathlib.Core.Path.{◌≡◌, refl}
use mathlib.Core.Logic.{◌⊎◌, inl, inr}

-- The statuses other than DC_STATUS_SUCCESS. `out_of_fuel` is none of them: a loop of the model that
-- waits for the other side has taken all its rounds. Nor is `overrun`: the code would write outside
-- of a buffer.
pub data Error : Type 0 where
  done unsupported invalid_args no_memory no_device no_access io timeout protocol : Error
  data_format cancelled : Error
  out_of_fuel overrun : Error

pub data Result (A : Type 0) : Type 0 where
  ok : A → Result A
  err : Error → Result A

-- A call that reads and changes a state of type `S`.
abbrev pub Call : Type 0 → Type 0 → Type 0
Call S A = S → Result A × S

abbrev pub bind : {S A B : Type 0} → Result A × S → (A → Call S B) → Result B × S
bind (ok a, s) f = f a s
bind (err e, s) f = (err e, s)

infixl 5 ◌>>=◌ ◌>>◌
abbrev pub ◌>>=◌ : {S A B : Type 0} → Call S A → (A → Call S B) → Call S B
◌>>=◌ m f s = bind (m s) f

abbrev pub ◌>>◌ : {S A B : Type 0} → Call S A → Call S B → Call S B
◌>>◌ m k s = bind (m s) (λ _. k)

abbrev pub return : {S A : Type 0} → A → Call S A
return a s = (ok a, s)

abbrev pub fail : {S A : Type 0} → Error → Call S A
fail e s = (err e, s)

pub Result-cases :
    {A : Type 0} (r : Result A) → ((a : A) × (r ≡ ok a)) ⊎ ((e : Error) × (r ≡ err e))
Result-cases (ok a) = inl (a, refl)
Result-cases (err e) = inr (e, refl)

pub bind-end :
    {S : Type 0} (r : Result (Unit {0}) × S) (f : Unit {0} → Call S (Unit {0}))
    → ((s : S) → f tt s ≡ (ok tt, s))
    → bind r f ≡ r
bind-end (ok tt, s) f h = h s
bind-end (err e, s) f h = refl

-- Two continuations that agree on every value and state.
pub bind_ext :
    {S A B : Type 0} (r : Result A × S) (f g : A → Call S B)
    → ((a : A) (s : S) → f a s ≡ g a s)
    → bind r f ≡ bind r g
bind_ext (ok a, s) f g h = h a s
bind_ext (err e, s) f g h = refl

pub bind_assoc :
    {S A B C : Type 0} (r : Result A × S) (f : A → Call S B) (g : B → Call S C)
    → bind (bind r f) g ≡ bind r (λ a s. bind (f a s) g)
bind_assoc (ok a, s) f g = refl
bind_assoc (err e, s) f g = refl

-- Inversion of a successful chain.
pub bind-eq-ok :
    {S A B : Type 0} (r : Result A × S) (f : A → Call S B) {b : B} {s' : S}
    → bind r f ≡ (ok b, s')
    → (a : A) × (s : S) × (r ≡ (ok a, s)) × (f a s ≡ (ok b, s'))
bind-eq-ok (ok a, s) f h = (a, s, refl, h)
bind-eq-ok (err e, s) f h = absurd (cc)

pub >>-eq-ok :
    {S A B : Type 0} (m : Call S A) (k : Call S B) (s : S) {b : B} {s' : S}
    → (m >> k) s ≡ (ok b, s')
    → (a : A) × (t : S) × (m s ≡ (ok a, t)) × (k t ≡ (ok b, s'))
>>-eq-ok m k s h = bind-eq-ok (m s) (λ _. k) h
