-- ===== src/Model/Hosts.antt =====
-- pkg/model/helper.go, `ComputeHosts`: the hostnames that a route and a listener share.
pub mod Matching
pub mod Taken
pub mod Laws
use Prim.Native.String.{len}
use controller_powered_by_di.Base.{
  ◌<>◌, String, Bool, false, Option, none, some, List, [], ◌∷◌, ◌==◌, if◌then◌else◌, ltb, deref_or,
}
use controller_powered_by_di.Base.Text.{is_empty, has_prefix, has_suffix, trim_prefix, trim_suffix}
use controller_powered_by_di.Base.Sort.{sort_texts}

abbrev pub all_hosts : String
all_hosts = "*"

unfoldable pub hostname_matches_wildcard_hostname : String → String → Bool
unfolding has_suffix trim_suffix trim_prefix
hostname_matches_wildcard_hostname hostname wildcard_hostname =
    if has_suffix hostname (trim_prefix wildcard_hostname all_hosts)
    then ltb 0 (len (trim_suffix hostname (trim_prefix wildcard_hostname all_hosts)))
    else false

-- One round of the loop: the hostname that it appends, if it appends one.
unfoldable pub host_for : String → String → Option String
unfolding hostname_matches_wildcard_hostname has_prefix
host_for listener route =
    if is_empty listener
    then some route
    else if listener == route
    then some route
    else if has_prefix listener all_hosts
    then (if hostname_matches_wildcard_hostname route listener then some route else none)
    else if has_prefix route all_hosts
    then (if hostname_matches_wildcard_hostname listener route then some listener else none)
    else none

abbrev cons? : Option String → List String → List String
cons? none xs = xs
cons? (some x) xs = x ∷ xs

unfoldable pub hosts_loop : String → List String → List String
unfolding host_for
hosts_loop listener [] = []
hosts_loop listener (route ∷ routes) = cons? (host_for listener route) (hosts_loop listener routes)

unfoldable pub compute_hosts : List String → Option String → List String
unfolding hosts_loop sort_texts
compute_hosts [] listener_hostname =
    let listener = deref_or listener_hostname "" in
    if is_empty listener then all_hosts ∷ [] else listener ∷ []
compute_hosts (route ∷ routes) listener_hostname =
    sort_texts (hosts_loop (deref_or listener_hostname "") (route ∷ routes))
