-- ===== src/Common/Match.antt =====
-- Which entry of a version table a version string belongs to: `oceanic_common_match_pattern` and
-- `oceanic_common_match` of libdivecomputer/src/oceanic_common.c.
pub mod Exclusive
mod Tests
use libdc_swift.Prelude.{
  ℕ, zero, suc, ◌+◌, ◌*◌, ◌%◌, ◌^◌, Bool, true, false, List, [], ◌∷◌, Option, none, some, leb, not,
  ◌==◌, if◌then◌else◌, get_or, drop,
}
use libdc_swift.Atom2.Versions.{Version}

-- The loop, with the rounds that are left. `starts` says whether a NUL of the pattern would start a
-- block of them; only the first block is the firmware. `value << 8 | *string` is a sum.
pub match_from : ℕ → Bool → ℕ → ℕ → List ℕ → List ℕ → Option ℕ
match_from zero starts value count string pattern = some value
match_from (suc rounds) starts value count string pattern =
    let p = get_or pattern 0 0 in
    let c = get_or string 0 0 in
    let count' = if starts then count + 1 else count in
    let value' = if count' == 1 then (value * 256 + c) % 2 ^ 32 else value in
    let literal = match_from rounds true value count (drop 1 string) (drop 1 pattern) in
    let wild = match_from rounds false value' count' (drop 1 string) (drop 1 pattern) in
    if not (p == 0) then (if p == c then literal else none) else wild

-- `oceanic_common_match_pattern`: the firmware, or `none` where the pattern does not match.
unfoldable pub match_pattern : List ℕ → List ℕ → Option ℕ
unfolding match_from
match_pattern string pattern = match_from 16 true 0 0 string pattern

-- An entry that matches is taken if the firmware is at least its own.
pub take_if : Version → Option ℕ → Option (Version × ℕ) → Option (Version × ℕ)
take_if v none rest = rest
take_if v (some firmware) rest = if leb v.firmware firmware then some (v, firmware) else rest

-- `oceanic_common_match`, with the firmware that it extracts.
unfoldable pub common_match : List ℕ → List Version → Option (Version × ℕ)
unfolding match_pattern take_if
common_match version [] = none
common_match version (v ∷ vs) =
    let rest = common_match version vs in take_if v (match_pattern version v.pattern_text) rest
