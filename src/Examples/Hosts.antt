-- ===== src/Examples/Hosts.antt =====
-- Hostnames and match keys at concrete texts.
use mathlib.Core.List.Perm
use controller_powered_by_di.Base.{
  String, ◌≡◌, ◌↔◌, refl, true, some, List, [], ◌∷◌, Any, contains, ◌≢◌,
}
use controller_powered_by_di.Base.Sort.{IsAscending, text_le}
use controller_powered_by_di.Model.{HttpRoute, KeyValueMatch, no_match}
use controller_powered_by_di.Model.Hosts.{compute_hosts}
use controller_powered_by_di.Model.Hosts.Matching.{IsUnder}
use controller_powered_by_di.Model.Hosts.Laws.{Shared, compute_hosts_iff, wider_route_wildcard}
use controller_powered_by_di.Model.MatchKey.{get_match_key}
use controller_powered_by_di.Model.MatchKey.Laws.{get_match_key-perm}
use controller_powered_by_di.Ingestion.Http.{zero_route}

shared_hosts :
    compute_hosts ("b.example.com" ∷ "a.example.com" ∷ "example.org" ∷ []) (some "*.example.com")
    ≡ ("a.example.com" ∷ "b.example.com" ∷ [])
unfolding compute_hosts text_le
shared_hosts = refl

compute_hosts_iff_example :
    ((contains
          (compute_hosts ("b.example.com" ∷ "a.example.com" ∷ []) (some "*.example.com"))
          "a.example.com"
        ≡ true)
      ↔ Any
          (λ r. Shared "*.example.com" r "a.example.com")
          ("b.example.com" ∷ "a.example.com" ∷ []))
    × IsAscending (compute_hosts ("b.example.com" ∷ "a.example.com" ∷ []) (some "*.example.com"))
compute_hosts_iff_example =
    compute_hosts_iff "b.example.com" ("a.example.com" ∷ []) (some "*.example.com") "a.example.com"

abbrev label : String
label = ".a"

filled : label ≢ ""
filled e = cc

wider_route_wildcard_example :
    (compute_hosts ("*.example.com" ∷ []) (some "*.a.example.com") ≡ [])
    × ((host : String) → IsUnder host ".a.example.com" → IsUnder host ".example.com")
wider_route_wildcard_example = wider_route_wildcard label ".example.com" filled

abbrev header : String → KeyValueMatch
header key = record { key = key; match = record no_match { exact = "1" } }

abbrev two_headers : List KeyValueMatch → HttpRoute
two_headers headers = record zero_route { headers_match = headers }

get_match_key-perm_example :
    (get_match_key (two_headers (header "a" ∷ header "b" ∷ []))).0
    ≡ (get_match_key (two_headers (header "b" ∷ header "a" ∷ []))).0
get_match_key-perm_example =
    get_match_key-perm (two_headers (header "a" ∷ header "b" ∷ []))
      (two_headers (header "b" ∷ header "a" ∷ [])) refl refl
      (Perm.swap (header "b") (header "a") []) (Perm.refl [])
