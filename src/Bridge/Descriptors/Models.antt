-- ===== src/Bridge/Descriptors/Models.antt =====
-- What a search of the descriptor table gives, and what it holds.
use libdc_swift.Prelude.{
  ℕ, ◌≡◌, inl, inr, Bool, true, false, List, [], ◌∷◌, ◌++◌, none, some, ok, err, Error, Result,
  bind, unsupported, arith, All, Bool-cases, Option-cases, Result-cases,
}
use libdc_swift.Bridge.Types.{Descriptor, State, owned_block}
use libdc_swift.Bridge.Platform.{Platform}
use libdc_swift.Bridge.Descriptors.{
  first, has_model, search_table, or_unsupported, find_descriptor_by_model, allocate_name,
}

-- `d` is the first of the table that passes the test.
pub data IsFirst (test : Descriptor → Bool) (d : Descriptor) : List Descriptor → Type 0 where
  here : {x : Descriptor} {ds : List Descriptor} → x ≡ d → test d ≡ true → IsFirst test d (x ∷ ds)
  there :
      {x : Descriptor} {ds : List Descriptor}
      → test x ≡ false
      → IsFirst test d ds
      → IsFirst test d (x ∷ ds)

pub first-some :
    (test : Descriptor → Bool) (ds : List Descriptor) {d : Descriptor}
    → first test ds ≡ some d
    → IsFirst test d ds
unfolding first
first-some test [] h = absurd (cc)
first-some test (x ∷ ds) h = elim (Bool-cases (test x)) [
  | inl t ↦ here (ground (arith, rw t at h)) (ground (arith, rw t at h))
  | inr f ↦ there f (first-some test ds (rw f at h))
]

pub first-none :
    (test : Descriptor → Bool) (ds : List Descriptor)
    → first test ds ≡ none
    → All (λ d. test d ≡ false) ds
unfolding first
first-none test [] h = tt
first-none test (x ∷ ds) h = elim (Bool-cases (test x)) [
  | inl t ↦ absurd (cc (rw t at h))
  | inr f ↦ (f, first-none test ds (rw f at h))
]

pub first-IsFirst :
    (test : Descriptor → Bool) {d : Descriptor} {ds : List Descriptor}
    → IsFirst test d ds
    → first test ds ≡ some d
unfolding first
first-IsFirst test (here e t) = ground arith
first-IsFirst test (there f h) = rw f (first-IsFirst test h)

-- The same holdings, and the same structure.
pub record Same {W : Type 0} (s s' : State W) : Type 0 where
  pub same_held : s'.held ≡ s.held
  pub same_bad : s'.bad_releases ≡ s.bad_releases
  pub same_data : s'.data_of ≡ s.data_of

module _ {W : Type 0} (platform : Platform W) where
  pub search_table-Same :
      (test : Descriptor → Bool) (s : State W) → Same s (search_table platform test s).1
  unfolding search_table
  search_table-Same test s = ground arith

  pub search_table-ok :
      (test : Descriptor → Bool) (s : State W) {it : ℕ} {table : List Descriptor} {env : W}
      → platform.descriptor_iterator s.env ≡ (ok (it, table), env)
      → (search_table platform test s).0 ≡ ok (first test table)
  unfolding search_table
  search_table-ok test s h = ground arith

  pub search_table-err :
      (test : Descriptor → Bool) (s : State W) {e : Error} {env : W}
      → platform.descriptor_iterator s.env ≡ (err e, env)
      → (search_table platform test s).0 ≡ err e
  unfolding search_table
  search_table-err test s h = ground arith

  -- What a call that looks for the first descriptor with a test comes to: `p` ends with the first
  -- descriptor of the table that passes it, with DC_STATUS_UNSUPPORTED if none does, and with the
  -- error of the iterator if that could not be made.
  pub data Finds (test : Descriptor → Bool) (w : W) (r : Result Descriptor) : Type 0 where
    found :
        (it : ℕ) (table : List Descriptor) (env : W) (d : Descriptor)
        → platform.descriptor_iterator w ≡ (ok (it, table), env)
        → IsFirst test d table
        → r ≡ ok d
        → Finds test w r
    missing :
        (it : ℕ) (table : List Descriptor) (env : W)
        → platform.descriptor_iterator w ≡ (ok (it, table), env)
        → All (λ d. test d ≡ false) table
        → r ≡ err unsupported
        → Finds test w r
    failed :
        (e : Error) (env : W)
        → platform.descriptor_iterator w ≡ (err e, env)
        → r ≡ err e
        → Finds test w r

  search_in-Finds :
      (test : Descriptor → Bool) (s : State W) (it : ℕ) (table : List Descriptor) (env : W)
      → platform.descriptor_iterator s.env ≡ (ok (it, table), env)
      → Finds test s.env (bind (search_table platform test s) or_unsupported).0
  unfolding or_unsupported
  search_in-Finds test s it table env h = elim (Option-cases (first test table)) [
    | inl e ↦
        missing it table env h (first-none test table e) (ground (arith, search_table-ok test s h))
    | inr (d, e) ↦
        found it table env d h (first-some test table e) (ground (arith, search_table-ok test s h))
  ]

  pub search-Finds :
      (test : Descriptor → Bool) (s : State W)
      → Finds test s.env (bind (search_table platform test s) or_unsupported).0
  search-Finds test s = elim (Result-cases (platform.descriptor_iterator s.env).0) [
    | inl (a, e) ↦
        search_in-Finds test s a.0 a.1 _ (λ i. (e i, (platform.descriptor_iterator s.env).1))
    | inr (x, e) ↦
        let h : platform.descriptor_iterator s.env
            ≡ (err x, (platform.descriptor_iterator s.env).1) =
          λ i. (e i, (platform.descriptor_iterator s.env).1) in
        failed x _ h (ground (arith, search_table-err test s h))
  ]

  pub search-Same :
      (test : Descriptor → Bool) (s : State W)
      → Same s (bind (search_table platform test s) or_unsupported).1
  unfolding or_unsupported
  search-Same test s = ground (arith, search_table-Same test s)

  -- A search by family and model ends with the first descriptor of the table that has both, with
  -- DC_STATUS_UNSUPPORTED if none has, and with the iterator's error if there is no iterator. It
  -- holds afterwards what it held before.
  pub find_descriptor_by_model-Finds :
      (family model : ℕ) (s : State W)
      → Finds (has_model family model) s.env (find_descriptor_by_model platform family model s).0
        × Same s (find_descriptor_by_model platform family model s).1
  unfolding find_descriptor_by_model
  find_descriptor_by_model-Finds family model s =
      (search-Finds (has_model family model) s, search-Same (has_model family model) s)

  -- The name is a block above what was held, or there is none and nothing has changed but the
  -- environment.
  pub allocate_name-Holds :
      (d : Descriptor) (s : State W)
      → let (name, s') = allocate_name platform d s in
        (s'.held ≡ owned_block name ++ s.held)
        × (s'.bad_releases ≡ s.bad_releases)
        × (s'.data_of ≡ s.data_of)
  unfolding allocate_name
  allocate_name-Holds d s = ground arith
