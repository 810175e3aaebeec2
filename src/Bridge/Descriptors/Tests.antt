-- ===== src/Bridge/Descriptors/Tests.antt =====
-- Runs of the searches for a descriptor.
use mathlib.Core.List.{Memᴰ}
use mathlib.Core.List.Memᴰ.{head, tail}
use libdc_swift.Atom2.Versions.{Version, versions, pattern_bytes}
use libdc_swift.Atom2.Layouts.{oceanic_atom2b}
use libdc_swift.Prelude.{
  arith, ℕ, zero, suc, List, Option, none, ◌+◌, ◌/◌, ◌%◌, ◌≡◌, refl, ◌≤◌, true, false, [], ◌∷◌,
  ◌++◌, some, ok, codes, get_or, length, All,
}
use libdc_swift.Bridge.Types.{owned_block, State}
use libdc_swift.Bridge.Fixture.{aqualung, oceans, table, sim, idle}
use libdc_swift.Bridge.Descriptors.{
  find_descriptor_by_name, find_descriptor_by_model, is_named, has_model, first, is_accepted,
  get_formatted_device_name, create_parser_for_device,
}
use libdc_swift.Bridge.Descriptors.Patterns.{name_patterns}
use libdc_swift.Bridge.Descriptors.Names.{find_descriptor_by_name-narrowed}
use libdc_swift.Bridge.Descriptors.Models.{Finds, Same, find_descriptor_by_model-Finds}
use libdc_swift.Bridge.Descriptors.Reference.{
  find_descriptor_by_name_lem, choose, or_option, result_of,
}
use libdc_swift.Bridge.Descriptors.Holding.{
  get_formatted_device_name-Holds, create_parser_for_device-AcquiresParser, AcquiresParser,
}
use libdc_swift.Bridge.Descriptors.Prefixed.{find_descriptor_by_name-model_prefix}
use libdc_swift.Bridge.Descriptors.Mistaken.{geo_4-mistaken, oceans_s1}

-- The state after a run that looks twice at the table, or once.
abbrev after_one : State ℕ
after_one = record idle { env = 2 }

aqualung-unnamed : All (λ p. is_named p aqualung ≡ false) name_patterns
unfolding is_named name_patterns
aqualung-unnamed = ground arith

aqualung-found : find_descriptor_by_name sim (codes "FQ001234") idle ≡ (ok aqualung, after_one)
unfolding find_descriptor_by_name
aqualung-found = refl

find_descriptor_by_name-narrowed_example :
    (aqualung.transports / 32 % 2 ≡ 1)
    × (sim.descriptor_filter aqualung (codes "FQ001234") ≡ true)
    × (2 ≤ length (codes "FQ001234"))
    × (get_or (codes "FQ001234") 0 0 ≡ aqualung.model / 256 % 256)
    × (get_or (codes "FQ001234") 1 0 ≡ aqualung.model % 256)
find_descriptor_by_name-narrowed_example =
    find_descriptor_by_name-narrowed sim (codes "FQ001234") idle aqualung-found refl
      aqualung-unnamed

find_descriptor_by_model-Finds_example :
    Finds sim (has_model 262146 0x4651) 0 (find_descriptor_by_model sim 262146 0x4651 idle).0
    × Same idle (find_descriptor_by_model sim 262146 0x4651 idle).1
find_descriptor_by_model-Finds_example = find_descriptor_by_model-Finds sim 262146 0x4651 idle

find_descriptor_by_name_lem_example :
    (find_descriptor_by_name sim (codes "FQ001234") idle).0
    ≡ result_of (
        or_option
          (choose table name_patterns (codes "FQ001234"))
          (first (is_accepted sim (codes "FQ001234")) table))
find_descriptor_by_name_lem_example =
    find_descriptor_by_name_lem sim table (λ w. (7, w + 1, refl)) (codes "FQ001234") idle

oceans-first : first (is_named oceans_s1) table ≡ some oceans
unfolding first is_named
oceans-first = refl

geo_4-mistaken_example : (find_descriptor_by_name sim (codes "FS10042") idle).0 ≡ ok oceans
geo_4-mistaken_example =
    geo_4-mistaken sim table (codes "0042") idle oceans (λ w. (7, w + 1, refl))
      (refl, (refl, (refl, (refl, tt)))) oceans-first

get_formatted_device_name-Holds_example :
    let (block_of, s') = get_formatted_device_name sim (codes "FQ001234") idle in
    (s'.held ≡ owned_block block_of ++ []) × (s'.bad_releases ≡ 0)
get_formatted_device_name-Holds_example =
    get_formatted_device_name-Holds sim (codes "FQ001234") idle

create_parser_for_device-AcquiresParser_example :
    AcquiresParser sim idle (create_parser_for_device sim 1 262146 0x4651 (1 ∷ 2 ∷ []) idle)
create_parser_for_device-AcquiresParser_example =
    create_parser_for_device-AcquiresParser sim 1 262146 0x4651 (1 ∷ 2 ∷ []) idle

-- The i300C is in the table of versions.
abbrev i300c : Version
i300c = record {
  pattern_text = pattern_bytes "AQUA300C ## 512K";
  firmware = 0;
  model = 0x4648;
  layout = oceanic_atom2b;
}

abbrev nth : List Version → ℕ → Option Version
nth [] n = none
nth (v ∷ vs) zero = some v
nth (v ∷ vs) (suc n) = nth vs n

Mem-nth : (vs : List Version) (n : ℕ) {v : Version} → nth vs n ≡ some v → Memᴰ v vs
Mem-nth [] n h = absurd (cc)
Mem-nth (x ∷ vs) zero h = head (ground arith)
Mem-nth (x ∷ vs) (suc n) h = tail (Mem-nth vs n h)

i300c-known : Memᴰ i300c versions
unfolding versions
i300c-known = Mem-nth versions 22 refl

find_descriptor_by_name-model_prefix_example :
    (find_descriptor_by_name sim (codes "FH007706") idle).0
    ≡ result_of (first (is_accepted sim (codes "FH007706")) table)
find_descriptor_by_name-model_prefix_example =
    find_descriptor_by_name-model_prefix sim table i300c (codes "007706") idle
      (λ w. (7, w + 1, refl)) i300c-known refl (refl, (refl, (refl, (refl, (refl, (refl, tt))))))
