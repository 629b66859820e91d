-- ===== src/Model/MatchKey.antt =====
-- pkg/model/model.go: the printed forms of matches, and `GetMatchKey`.
pub mod Laws
use controller_powered_by_di.Base.{◌<>◌, String, Option, none, some, List, [], ◌∷◌, if◌then◌else◌}
use controller_powered_by_di.Base.Text.{is_empty}
use controller_powered_by_di.Base.Sort.{text_le}
use controller_powered_by_di.Model.Types.{StringMatch, KeyValueMatch, HttpRoute}

-- `StringMatch.String`
unfoldable pub string_match_text : StringMatch → String
string_match_text sm =
    if is_empty sm.prefix
    then (if is_empty sm.exact
        then (if is_empty sm.regex then "" else "regex:" <> sm.regex)
        else "exact:" <> sm.exact)
    else "prefix:" <> sm.prefix

-- `KeyValueMatch.String`
unfoldable pub key_value_text : KeyValueMatch → String
unfolding string_match_text
key_value_text kv = "kv:" <> (kv.key <> (":" <> string_match_text kv.match))

insert_match : KeyValueMatch → List KeyValueMatch → List KeyValueMatch
unfolding key_value_text
insert_match a [] = a ∷ []
insert_match a (b ∷ xs) =
    if text_le (key_value_text a) (key_value_text b) then a ∷ (b ∷ xs) else b ∷ insert_match a xs

-- `sort.Slice` by the printed form. Go does not fix the order of matches that print alike.
unfoldable pub sort_matches : List KeyValueMatch → List KeyValueMatch
unfolding insert_match
sort_matches [] = []
sort_matches (a ∷ xs) = insert_match a (sort_matches xs)

abbrev method_text : Option String → String
method_text none = ""
method_text (some m) = "method:" <> (m <> "|")

abbrev matches_text : String → List KeyValueMatch → String
matches_text label [] = ""
matches_text label (m ∷ ms) = label <> (key_value_text m <> ("|" <> matches_text label ms))

-- The key, and the route with its matches sorted in place.
unfoldable pub get_match_key : HttpRoute → String × HttpRoute
unfolding sort_matches key_value_text
get_match_key r =
    let headers = sort_matches r.headers_match in
    let query = sort_matches r.query_params_match in
    (
      method_text r.method
          <> ("path:"
              <> (string_match_text r.path_match
                  <> ("|" <> (matches_text "header:" headers <> matches_text "query:" query)))),
      record r { headers_match = headers; query_params_match = query },
    )
