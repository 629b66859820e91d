-- ===== src/Helpers/Sni.antt =====
-- pkg/gateway_api/helpers/gateway.go: whether two hostnames can match one server name, and the
-- tests on listeners beside it.
pub mod Laws
use mathlib.Core.List.{reverse}
use controller_powered_by_di.Base.{
  ℕ, zero, suc, String, Bool, true, false, ◌&&◌, ◌||◌, Option, none, some, List, [], ◌∷◌, ◌==◌,
  if◌then◌else◌, length, ltb, leb, deref_or, some_and,
}
use controller_powered_by_di.Base.Text.{is_empty, has_prefix, cut_prefix, split}
use controller_powered_by_di.Api.{Listener, Protocol, TlsMode, ListenerTlsConfig}
use controller_powered_by_di.Model.Hosts.{all_hosts, hostname_matches_wildcard_hostname}

unfoldable pub listener_hostname : Listener → String
listener_hostname listener = deref_or listener.hostname ""

unfoldable pub is_https_terminated_listener : Listener → Bool
is_https_terminated_listener listener = is_protocol listener.protocol
  where
    is_protocol : Protocol → Bool
    is_protocol Protocol.https = true
    is_protocol _ = false

unfoldable pub is_tls_passthrough_listener : Listener → Bool
is_tls_passthrough_listener listener =
    is_protocol listener.protocol && some_and is_passthrough listener.tls
  where
    is_protocol : Protocol → Bool
    is_protocol Protocol.tls = true
    is_protocol _ = false

    is_mode : TlsMode → Bool
    is_mode TlsMode.passthrough = true
    is_mode _ = false

    is_passthrough : ListenerTlsConfig → Bool
    is_passthrough tls = some_and is_mode tls.mode

unfoldable pub normalize_hostname : String → String
normalize_hostname hostname = if is_empty hostname then all_hosts else hostname

-- The loop over the labels from the last on, for the indexes that are left; `none` is an index
-- out of range.
unfoldable pub labels_loop : ℕ → ℕ → List String → List String → Option Bool
labels_loop zero matching route listener = some (ltb 0 matching)
labels_loop (suc left) matching [] listener = none
labels_loop (suc left) matching (r ∷ route) [] = none
labels_loop (suc left) matching (r ∷ route) (l ∷ listener) =
    let rest = labels_loop left (suc matching) route listener in
    if r == all_hosts || l == all_hosts
    then some (ltb 0 matching)
    else if r == l
    then rest
    else some false

abbrev max_length : ℕ → ℕ → ℕ
max_length a b = if leb a b then b else a

-- The code of the separator of labels.
abbrev pub dot : ℕ
dot = 46

unfoldable pub compare_labels : List String → List String → Option Bool
unfolding labels_loop
compare_labels route listener =
    labels_loop (max_length (length route) (length listener)) 0 route listener

-- What is left of a wildcard, if it is more than `*.`.
abbrev cut_wildcard : String → Option String → Option String
cut_wildcard s none = none
cut_wildcard s (some rest) = if is_empty rest then none else some rest

abbrev both_cut : Option String → Option String → String → String → Option Bool
unfolding compare_labels split
both_cut (some _) (some _) route listener =
    compare_labels (reverse (split route dot)) (reverse (split listener dot))
both_cut _ _ route listener = some false

unfoldable pub wildcard_hostnames_intersect : String → String → Option Bool
unfolding cut_prefix both_cut
wildcard_hostnames_intersect route listener =
    if route == all_hosts || listener == all_hosts
    then some true
    else both_cut (cut_wildcard route (cut_prefix route "*."))
        (cut_wildcard listener (cut_prefix listener "*.")) route listener

-- The cases for two normalized hostnames, by which of them are wildcards.
abbrev by_wildcards : Bool → Bool → String → String → Option Bool
unfolding wildcard_hostnames_intersect hostname_matches_wildcard_hostname
by_wildcards true true a b = wildcard_hostnames_intersect a b
by_wildcards true false a b = some (hostname_matches_wildcard_hostname b a)
by_wildcards false true a b = some (hostname_matches_wildcard_hostname a b)
by_wildcards false false a b = some false

abbrev normalized_intersect : String → String → Option Bool
unfolding by_wildcards has_prefix
normalized_intersect a b =
    if a == all_hosts || b == all_hosts
    then some true
    else if a == b
    then some true
    else by_wildcards (has_prefix a all_hosts) (has_prefix b all_hosts) a b

unfoldable pub sni_hostnames_intersect : String → String → Option Bool
unfolding normalize_hostname normalized_intersect
sni_hostnames_intersect a b = normalized_intersect (normalize_hostname a) (normalize_hostname b)
