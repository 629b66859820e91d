-- ===== src/Translation/Matchers.antt =====
-- pkg/model/translation/envoy_virtual_host.go: the matchers of a route.
use controller_powered_by_di.Base.{
  ◌<>◌, String, Bool, ◌&&◌, not, Option, none, some, List, [], ◌∷◌, ◌++◌, ◌==◌, if◌then◌else◌, map,
  keep,
}
use controller_powered_by_di.Base.Text.{is_empty, has_prefix, trim_prefix, trim_suffix}
use controller_powered_by_di.Base.Strings.{has_char, replace_char, to_upper}
use controller_powered_by_di.Model.{StringMatch, KeyValueMatch}
use controller_powered_by_di.Translation.Envoy.{
  HeaderMatcher, QueryParameterMatcher, RouteMatch, PathSpecifier, StringMatcher,
}

-- `none` is the nil matcher of a match without a text.
unfoldable pub get_envoy_string_matcher : StringMatch → Option StringMatcher
get_envoy_string_matcher s =
    if not (is_empty s.exact)
    then some (StringMatcher.exact s.exact)
    else if not (is_empty s.prefix)
    then some (StringMatcher.prefix s.prefix)
    else if not (is_empty s.regex)
    then some (StringMatcher.safe_regex s.regex)
    else none

unfoldable pub get_query_matchers : List KeyValueMatch → List QueryParameterMatcher
unfolding get_envoy_string_matcher
get_query_matchers query =
    map (λ q. record { name = q.key; string_match = get_envoy_string_matcher q.match }) query

-- A star for one or more characters other than a dot. `host[2:]` is what follows `*.`.
unfoldable pub get_matching_header_regex : String → String
unfolding has_prefix trim_prefix replace_char
get_matching_header_regex host =
    if has_prefix host "*."
    then "^[^.]+[.]" <> (replace_char 46 "[.]" (trim_prefix host "*.") <> "$")
    else "^" <> (replace_char 46 "[.]" host <> "$")

-- A hostname with a star that is not the star alone.
abbrev is_partial_wildcard : String → Bool
is_partial_wildcard host = not (is_empty host) && (not (host == "*") && has_char 42 host)

abbrev host_matcher : String → HeaderMatcher
unfolding get_matching_header_regex
host_matcher host = record {
  name = ":authority";
  string_match = some (StringMatcher.safe_regex (get_matching_header_regex host));
}

abbrev method_matchers : Option String → List HeaderMatcher
unfolding to_upper
method_matchers none = []
method_matchers (some method) =
    record { name = ":method"; string_match = some (StringMatcher.exact (to_upper method)) } ∷ []

unfoldable pub get_header_matchers :
    List String → Bool → List KeyValueMatch → Option String → List HeaderMatcher
unfolding get_envoy_string_matcher host_matcher method_matchers
get_header_matchers hostnames host_name_suffix_match headers method =
    (if host_name_suffix_match then [] else map host_matcher (keep is_partial_wildcard hostnames))
    ++ (map (λ h. record { name = h.key; string_match = get_envoy_string_matcher h.match }) headers
        ++ method_matchers method)

-- The cases of the switch over the path.
unfoldable pub path_specifier_for : StringMatch → PathSpecifier
unfolding trim_suffix
path_specifier_for p =
    if not (is_empty p.exact)
    then PathSpecifier.path p.exact
    else if p.prefix == "/"
    then PathSpecifier.prefix p.prefix
    else if not (is_empty p.prefix)
    then PathSpecifier.path_separated_prefix (trim_suffix p.prefix "/")
    else if not (is_empty p.regex)
    then PathSpecifier.safe_regex p.regex
    else PathSpecifier.prefix "/"

unfoldable pub get_route_match :
    List String
    → Bool
    → StringMatch
    → List KeyValueMatch
    → List KeyValueMatch
    → Option String
    → RouteMatch
unfolding get_header_matchers get_query_matchers path_specifier_for
get_route_match hostnames host_name_suffix_match path_match headers query method = record {
  path_specifier = path_specifier_for path_match;
  headers = get_header_matchers hostnames host_name_suffix_match headers method;
  query_parameters = get_query_matchers query;
}
