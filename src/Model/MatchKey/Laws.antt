-- ===== src/Model/MatchKey/Laws.antt =====
-- The match key does not depend on the order of the matches.
use mathlib.Core.List.{Perm}
use mathlib.Core.List.Perm
use controller_powered_by_di.Base.{
  ◌<>◌, String, ◌≡◌, refl, sym, ap, ◌∙◌, List, [], ◌∷◌, map, Bool-cases, inl, inr,
}
use controller_powered_by_di.Base.Sort.{text_le, insert, sort_texts, sort_texts-eq_of_perm}
use controller_powered_by_di.Model.Types.{KeyValueMatch, HttpRoute}
use controller_powered_by_di.Model.MatchKey.{
  key_value_text, insert_match, sort_matches, matches_text, get_match_key,
}

map-insert_match :
    (a : KeyValueMatch) (xs : List KeyValueMatch)
    → map key_value_text (insert_match a xs) ≡ insert (key_value_text a) (map key_value_text xs)
unfolding insert_match insert
map-insert_match a [] = refl
map-insert_match a (b ∷ xs) = elim (Bool-cases (text_le (key_value_text a) (key_value_text b))) [
  | inl le ↦ rw le refl
  | inr gt ↦ rw gt (ap (λ ts. key_value_text b ∷ ts) (map-insert_match a xs))
]

-- The printed forms of the sorted matches are the sorted printed forms.
pub map-sort_matches :
    (xs : List KeyValueMatch)
    → map key_value_text (sort_matches xs) ≡ sort_texts (map key_value_text xs)
unfolding sort_matches sort_texts
map-sort_matches [] = refl
map-sort_matches (a ∷ xs) =
    map-insert_match a (sort_matches xs) ∙ ap (insert (key_value_text a)) (map-sort_matches xs)

abbrev join : String → List String → String
join label [] = ""
join label (t ∷ ts) = label <> (t <> ("|" <> join label ts))

matches_text-eq-join :
    (label : String) (ms : List KeyValueMatch)
    → matches_text label ms ≡ join label (map key_value_text ms)
matches_text-eq-join label [] = refl
matches_text-eq-join label (m ∷ ms) =
    ap (λ rest. label <> (key_value_text m <> ("|" <> rest))) (matches_text-eq-join label ms)

sorted_text-perm :
    (label : String) {xs ys : List KeyValueMatch}
    → Perm xs ys
    → matches_text label (sort_matches xs) ≡ matches_text label (sort_matches ys)
sorted_text-perm label {xs} {ys} p =
    matches_text-eq-join label (sort_matches xs)
    ∙ ap (join label) (
        map-sort_matches xs
        ∙ sort_texts-eq_of_perm (Perm.map key_value_text p)
        ∙ sym (map-sort_matches ys))
    ∙ sym (matches_text-eq-join label (sort_matches ys))

-- Two routes with the same method and path match, whose header matches and whose query matches
-- differ only in their order, have the same match key.
pub get_match_key-perm :
    (r s : HttpRoute)
    → r.method ≡ s.method
    → r.path_match ≡ s.path_match
    → Perm r.headers_match s.headers_match
    → Perm r.query_params_match s.query_params_match
    → (get_match_key r).0 ≡ (get_match_key s).0
unfolding get_match_key
get_match_key-perm r s same_method same_path headers query =
    cc (sorted_text-perm "header:" headers, sorted_text-perm "query:" query)
