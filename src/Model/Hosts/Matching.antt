-- ===== src/Model/Hosts/Matching.antt =====
-- What it is for a hostname to lie under a pattern, apart from how the code tests it.
use Prim.Native.String.{len}
use Prim.Native.String.len as len_text
use text.Mathlib.TextPositions.{len_utf8-pos}
use controller_powered_by_di.Base.{
  ◌<>◌, ◌<◌, String, ◌≡◌, ◌≢◌, ◌↔◌, refl, ap, true, false, arith, if◌then◌else◌, ltb,
}
use controller_powered_by_di.Base.Text.{
  has_prefix, has_suffix, trim_prefix, trim_suffix, has_suffix_sound, has_suffix_complete,
  trim_suffix-append, has_prefix_sound, trim_prefix-append,
}
use controller_powered_by_di.Model.Hosts.{all_hosts, hostname_matches_wildcard_hostname}

-- The hostname is something that is not empty with the rest of the wildcard behind it.
abbrev pub IsUnder : String → String → Type 0
IsUnder hostname rest = (label : String) × (label ≢ "") × (hostname ≡ label <> rest)

-- A hostname matches a pattern that equals it, and a wildcard that it lies under. The hostname may
-- be a wildcard itself.
pub data Matches (pattern hostname : String) : Type 0 where
  exactly : pattern ≡ hostname → Matches pattern hostname
  by_wildcard :
      (rest : String)
      → pattern ≡ all_hosts <> rest
      → IsUnder hostname rest
      → Matches pattern hostname

pub len-pos : (s : String) → s ≢ "" → 0 < len s
len-pos String.[] h = absurd (h refl)
len-pos (String.◌∷◌ c s) h =
    let (k, e) = len_utf8-pos c in rw (len_text.cons c s) (omega (arith, e))

pos-len : (s : String) → 0 < len s → s ≢ ""
pos-len s h e = omega (arith, ap len e, len_text.nil)

-- The test by suffix decides whether the hostname lies under the wildcard.
pub hostname_matches_wildcard_hostname_iff :
    (hostname rest : String)
    → (hostname_matches_wildcard_hostname hostname (all_hosts <> rest) ≡ true)
      ↔ IsUnder hostname rest
unfolding hostname_matches_wildcard_hostname
hostname_matches_wildcard_hostname_iff hostname rest =
    rw (trim_prefix-append all_hosts rest) (sound, complete)
  where
    sound :
        (if has_suffix hostname rest then ltb 0 (len (trim_suffix hostname rest)) else false) ≡ true
        → IsUnder hostname rest
    sound h = (
      trim_suffix hostname rest,
      pos-len _ (ground arith),
      has_suffix_sound hostname rest (ground arith),
    )

    complete :
        IsUnder hostname rest
        → (if has_suffix hostname rest then ltb 0 (len (trim_suffix hostname rest)) else false)
          ≡ true
    complete (label, filled, e) =
        rw (e, has_suffix_complete label rest, trim_suffix-append label rest)
          (ground (arith, len-pos label filled))

-- Every wildcard is a star with the rest behind it.
pub wildcard_split :
    (s : String) → has_prefix s all_hosts ≡ true → s ≡ all_hosts <> trim_prefix s all_hosts
wildcard_split s h = has_prefix_sound s all_hosts h

-- A wildcard matches what lies under it by the code's test.
pub Matches-of_wildcard :
    (pattern hostname : String)
    → has_prefix pattern all_hosts ≡ true
    → hostname_matches_wildcard_hostname hostname pattern ≡ true
    → Matches pattern hostname
Matches-of_wildcard pattern hostname wild h =
    let e = wildcard_split pattern wild in
    by_wildcard (trim_prefix pattern all_hosts) e
      ((hostname_matches_wildcard_hostname_iff hostname _).0 (rw e at h))
