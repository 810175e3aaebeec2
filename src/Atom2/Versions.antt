-- ===== src/Atom2/Versions.antt =====
-- The table `versions` of libdivecomputer/src/oceanic_atom2.c: which version strings belong to
-- which model and layout. `#` stands for a NUL byte of the pattern. The model numbers are those of
-- oceanic_common.h, under their names there.
use Prim.Native.Char.{code}
use Prim.Native.String.{String}
use libdc_swift.Prelude.{ℕ, List, [], ◌∷◌, ◌==◌, if◌then◌else◌}
use libdc_swift.Atom2.Layouts.{
  LayoutId, aeris_f10, aeris_f11, oceanic_default, oceanic_atom1, oceanic_atom2a, oceanic_atom2b,
  oceanic_atom2c, sherwood_wisdom, oceanic_proplus3, tusa_zenair, oceanic_oc1, oceanic_oci,
  oceanic_atom3, oceanic_vt4, hollis_tx1, oceanic_veo1, oceanic_reactpro, oceanic_proplusx,
  aqualung_i770r, aeris_a300cs, aqualung_i450t,
}

-- The bytes of a pattern.
abbrev pub pattern_bytes : String → List ℕ
pattern_bytes String.[] = []
pattern_bytes (String.◌∷◌ c s) = (if code c == b'#' then 0 else code c) ∷ pattern_bytes s

-- `oceanic_common_version_t`
pub record Version : Type 0 where
  pub pattern_text : List ℕ
  pub firmware : ℕ
  pub model : ℕ
  pub layout : LayoutId

abbrev entry : String → ℕ → ℕ → LayoutId → Version
entry text firmware model layout = record {
  pattern_text = pattern_bytes text;
  firmware = firmware;
  model = model;
  layout = layout;
}

-- `versions`
unfoldable pub versions : List Version
versions =
    entry "OCEVEO10 ##   8K" 0 0x4358 oceanic_veo1
    ∷ entry "AERIS XR1 NX R##" 0 0x4346 oceanic_veo1
    ∷ entry "ATOM rev##  256K" 0 0x4250 oceanic_atom1
    ∷ entry "MANTA  R##  512K" 0x3242 0x4345 oceanic_atom2a
    ∷ entry "MANTA  R##  512K" 0 0x4345 oceanic_atom2c
    ∷ entry "2M ATOM r## 512K" 0x3349 0x4342 oceanic_atom2a
    ∷ entry "2M ATOM r## 512K" 0 0x4342 oceanic_atom2c
    ∷ entry "OCE GEO R## 512K" 0x3242 0x4344 oceanic_atom2a
    ∷ entry "OCE GEO R## 512K" 0 0x4344 oceanic_atom2c
    ∷ entry "INSIGHT2 ## 512K" 0 0x4353 oceanic_atom2a
    ∷ entry "OCEVEO30 ## 512K" 0 0x435A oceanic_atom2a
    ∷ entry "ATMOSAI R## 512K" 0 0x4443 oceanic_atom2a
    ∷ entry "PROPLUS2 ## 512K" 0 0x4444 oceanic_atom2a
    ∷ entry "OCEGEO20 ## 512K" 0 0x4446 oceanic_atom2a
    ∷ entry "AQUAI200 ## 512K" 0 0x4646 oceanic_atom2a
    ∷ entry "AQUA200C ## 512K" 0 0x4649 oceanic_atom2a
    ∷ entry "ELEMENT2 ## 512K" 0 0x4357 oceanic_atom2b
    ∷ entry "OCEVEO20 ## 512K" 0 0x4359 oceanic_atom2b
    ∷ entry "TUSAZEN ##  512K" 0 0x4441 oceanic_atom2b
    ∷ entry "AQUAI300 ## 512K" 0 0x4559 oceanic_atom2b
    ∷ entry "HOLLDG03 ## 512K" 0 0x444D oceanic_atom2b
    ∷ entry "AQUAI100 ## 512K" 0 0x464E oceanic_atom2b
    ∷ entry "AQUA300C ## 512K" 0 0x4648 oceanic_atom2b
    ∷ entry "OCEGEO40 ## 512K" 0 0x4653 oceanic_atom2b
    ∷ entry "VEOSMART ## 512K" 0 0x4654 oceanic_atom2b
    ∷ entry "2M EPIC r## 512K" 0 0x4257 oceanic_atom2c
    ∷ entry "EPIC1  R##  512K" 0 0x4453 oceanic_atom2c
    ∷ entry "AERIA300 ## 512K" 0 0x445A oceanic_atom2c
    ∷ entry "OCE VT3 R## 512K" 0 0x4258 oceanic_default
    ∷ entry "ELITET3 R## 512K" 0 0x4259 oceanic_default
    ∷ entry "ELITET31 ## 512K" 0 0x4455 oceanic_default
    ∷ entry "DATAMASK ## 512K" 0 0x4347 oceanic_default
    ∷ entry "COMPMASK ## 512K" 0 0x4348 oceanic_default
    ∷ entry "WISDOM R##  512K" 0x3342 0x4458 sherwood_wisdom
    ∷ entry "WISDOM R##  512K" 0 0x4350 sherwood_wisdom
    ∷ entry "PROPLUS3 ## 512K" 0 0x4548 oceanic_proplus3
    ∷ entry "PROPLUS4 ## 512K" 0 0x4656 oceanic_proplus3
    ∷ entry "TUZENAIR ## 512K" 0 0x4442 tusa_zenair
    ∷ entry "AMPHOSSW ## 512K" 0 0x4545 tusa_zenair
    ∷ entry "AMPHOAIR ## 512K" 0 0x4546 tusa_zenair
    ∷ entry "VOYAGE2G ## 512K" 0 0x444B tusa_zenair
    ∷ entry "TUSTALIS ## 512K" 0 0x454E tusa_zenair
    ∷ entry "AMPHOS20 ## 512K" 0 0x4657 tusa_zenair
    ∷ entry "AMPAIR20 ## 512K" 0 0x4658 tusa_zenair
    ∷ entry "REACPRO2 ## 512K" 0 0x4354 oceanic_reactpro
    ∷ entry "FREEWAER ## 512K" 0 0x434D aeris_f10
    ∷ entry "OCEANF10 ## 512K" 0 0x4553 aeris_f10
    ∷ entry "MUNDIAL R## 512K" 0x3300 0x4550 aeris_f10
    ∷ entry "MUNDIAL R## 512K" 0 0x4543 aeris_f10
    ∷ entry "AERISF11 ## 1024" 0 0x4549 aeris_f11
    ∷ entry "OCEANF11 ## 1024" 0 0x4554 aeris_f11
    ∷ entry "OCWATCH R## 1024" 0 0x434E oceanic_oc1
    ∷ entry "OC1WATCH ## 1024" 0 0x4449 oceanic_oc1
    ∷ entry "OCSWATCH ## 1024" 0 0x4450 oceanic_oc1
    ∷ entry "AQUAI550 ## 1024" 0 0x4642 oceanic_oc1
    ∷ entry "AQUA550C ## 1024" 0 0x4652 oceanic_oc1
    ∷ entry "WISDOM04 ## 1024" 0 0x4655 oceanic_oc1
    ∷ entry "AQUA470C ## 1024" 0 0x4743 oceanic_oc1
    ∷ entry "AQUA200C ## 1024" 0 0x4749 oceanic_oc1
    ∷ entry "GEOAIR   ## 1024" 0 0x474B oceanic_oc1
    ∷ entry "OCEANOCI ## 1024" 0 0x454B oceanic_oci
    ∷ entry "OCEATOM3 ## 1024" 0 0x444C oceanic_atom3
    ∷ entry "ATOM31  ##  1024" 0 0x4456 oceanic_atom3
    ∷ entry "OCEANVT4 ## 1024" 0 0x4447 oceanic_vt4
    ∷ entry "OCEAVT41 ## 1024" 0 0x4452 oceanic_vt4
    ∷ entry "AERISAIR ## 1024" 0 0x4457 oceanic_vt4
    ∷ entry "SWVISION ## 1024" 0 0x4556 oceanic_vt4
    ∷ entry "XPSUBAIR ## 1024" 0 0x4555 oceanic_vt4
    ∷ entry "AQUAI100 ## 1024" 0 0x4745 oceanic_vt4
    ∷ entry "HOLLDG04 ## 2048" 0 0x4542 hollis_tx1
    ∷ entry "AER300CS ## 2048" 0 0x454C aeris_a300cs
    ∷ entry "OCEANVTX ## 2048" 0 0x4557 aeris_a300cs
    ∷ entry "AQUAI750 ## 2048" 0 0x455A aeris_a300cs
    ∷ entry "SWDRAGON ## 2048" 0 0x4647 aeris_a300cs
    ∷ entry "SWBEACON ## 2048" 0 0x4742 aeris_a300cs
    ∷ entry "AQUAI450 ## 2048" 0 0x4641 aqualung_i450t
    ∷ entry "OCEANOCX ## ####" 0 0x4552 oceanic_proplusx
    ∷ entry "AQUA770R ## ####" 0 0x4651 aqualung_i770r
    ∷ []
