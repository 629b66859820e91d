-- ===== src/Translation/VirtualHost/Order.antt =====
-- pkg/model/translation/envoy_virtual_host.go: the order of the routes of a virtual host.
use mathlib.Core.List.{Perm}
use controller_powered_by_di.Base.{
  ℕ, ◌<◌, String, Bool, true, false, Option, some, List, [], ◌∷◌, map, traverse, length, ◌≡◌, refl,
  ◌⊎◌, inl, inr, if◌then◌else◌, ◌&&◌, num_eq, ltb, All, All-map, keep, ◌++◌, ◌==◌, Bool-cases,
  arith,
}
use controller_powered_by_di.Base.Strings.{join_host_port}
use controller_powered_by_di.Base.StableSort.{
  stable_sort, IsWeakOrder, IsOrdered, stable_sort-perm, stable_sort-IsOrdered, keep-stable_sort,
  by_largest-IsWeakOrder, never-IsWeakOrder,
}
use controller_powered_by_di.Model.{HttpRoute}
use controller_powered_by_di.Translation.Envoy.{Route, VirtualHost}
use controller_powered_by_di.Translation.Infra.{Infra}
use controller_powered_by_di.Translation.VirtualHost.{
  VirtualHostParameter, less, path_len, regex_len, separated_len, prefix_len, sort_routes,
  domains_loop, host_with, routes_for, new_virtual_host,
}

-- What the order looks at, the most important first: the lengths of the exact path, of the regular
-- expression and of the prefix, and the numbers of the header and the query matches.
abbrev pub ranks : Infra → Route → List ℕ
unfolding path_len regex_len separated_len prefix_len
ranks infra r =
    path_len r.match.path_specifier
    ∷ (regex_len r.match.path_specifier
        ∷ (infra.int_max (separated_len r.match.path_specifier) (prefix_len r.match.path_specifier)
            ∷ (length r.match.headers ∷ (length r.match.query_parameters ∷ []))))

-- The first rank that differs is larger, or none differs.
abbrev pub IsAtLeast : List ℕ → List ℕ → Type 0
IsAtLeast (a ∷ xs) (b ∷ ys) = (b < a) ⊎ ((a ≡ b) × IsAtLeast xs ys)
IsAtLeast _ _ = Unit

-- Every route is at least each of the later ones.
abbrev pub IsByRank : Infra → List Route → Type 0
unfolding ranks
IsByRank infra [] = Unit
IsByRank infra (r ∷ rs) =
    All (λ s. IsAtLeast (ranks infra r) (ranks infra s)) rs × IsByRank infra rs

abbrev by_path : Route → ℕ
unfolding path_len
by_path r = path_len r.match.path_specifier

abbrev by_regex : Route → ℕ
unfolding regex_len
by_regex r = regex_len r.match.path_specifier

abbrev by_prefix : Infra → Route → ℕ
unfolding separated_len prefix_len
by_prefix infra r =
    infra.int_max (separated_len r.match.path_specifier) (prefix_len r.match.path_specifier)

abbrev by_headers : Route → ℕ
by_headers r = length r.match.headers

abbrev by_query : Route → ℕ
by_query r = length r.match.query_parameters

less-IsWeakOrder : (infra : Infra) → IsWeakOrder (less infra)
unfolding less by_path by_regex by_prefix
less-IsWeakOrder infra = by_largest-IsWeakOrder by_path _ (
    by_largest-IsWeakOrder by_regex _ (
      by_largest-IsWeakOrder (by_prefix infra) _ (
        by_largest-IsWeakOrder by_headers _ (by_largest-IsWeakOrder by_query _ never-IsWeakOrder))))

step_sound :
    {P : Type 0} (m n : ℕ) {rest : Bool}
    → (rest ≡ false → P)
    → (if num_eq m n then rest else ltb n m) ≡ false
    → (m < n) ⊎ ((n ≡ m) × P)
step_sound m n f h = grind arith

less_sound :
    (infra : Infra) (a b : Route)
    → less infra b a ≡ false
    → IsAtLeast (ranks infra a) (ranks infra b)
unfolding less ranks by_path by_regex by_prefix
less_sound infra a b h =
    step_sound (by_path b) (by_path a)
      (step_sound (by_regex b) (by_regex a) (
        step_sound (by_prefix infra b) (by_prefix infra a) (
          step_sound (by_headers b) (by_headers a)
            (step_sound (by_query b) (by_query a) (λ e. tt)))))
      h

-- Routes of the same ranks do not come before one another.
unfoldable pub same_ranks : List ℕ → List ℕ → Bool
same_ranks [] [] = true
same_ranks (a ∷ xs) (b ∷ ys) = num_eq a b && same_ranks xs ys
same_ranks _ _ = false

-- The test of the routes that are level with a route.
abbrev pub is_level : Infra → Route → Route → Bool
unfolding same_ranks ranks
is_level infra c a = same_ranks (ranks infra a) (ranks infra c)

level_step :
    (a b c : ℕ) {at bt rest : Bool}
    → (at ≡ true → bt ≡ true → rest ≡ false)
    → (num_eq a c && at) ≡ true
    → (num_eq b c && bt) ≡ true
    → (if num_eq a b then rest else ltb b a) ≡ false
level_step a b c f ha hb = grind arith

less_level :
    (infra : Infra) (c a b : Route)
    → is_level infra c a ≡ true
    → is_level infra c b ≡ true
    → less infra a b ≡ false
unfolding less is_level same_ranks by_path by_regex by_prefix
less_level infra c a b = level_step (by_path a) (by_path b) (by_path c) (
    level_step (by_regex a) (by_regex b) (by_regex c) (
      level_step (by_prefix infra a) (by_prefix infra b) (by_prefix infra c) (
        level_step (by_headers a) (by_headers b) (by_headers c)
          (level_step (by_query a) (by_query b) (by_query c) (λ _ _. refl)))))

IsOrdered-IsByRank :
    (infra : Infra) (rs : List Route) → IsOrdered (less infra) rs → IsByRank infra rs
unfolding IsByRank
IsOrdered-IsByRank infra [] h = tt
IsOrdered-IsByRank infra (r ∷ rs) h =
    (All-map (λ s. less_sound infra r s) rs h.0, IsOrdered-IsByRank infra rs h.1)

traverse-map-some : {A : Type 0} (xs : List A) → traverse (λ o. o) (map some xs) ≡ some xs
traverse-map-some [] = refl
traverse-map-some (x ∷ xs) = rw (traverse-map-some xs) refl

sort_routes-map-some :
    (infra : Infra) (rs : List Route)
    → sort_routes infra (map some rs) ≡ some (map some (stable_sort (less infra) rs))
unfolding sort_routes stable_sort
sort_routes-map-some infra [] = refl
sort_routes-map-some infra (r ∷ []) = refl
sort_routes-map-some infra (r ∷ (s ∷ rs)) = rw (traverse-map-some rs) refl

domains_loop-cons :
    (d : String) (ds hosts : List String)
    → (x : String) × (xs : List String) × (domains_loop (d ∷ ds) hosts ≡ x ∷ xs)
unfolding domains_loop
domains_loop-cons d ds [] = (d, ds, refl)
domains_loop-cons d ds (h ∷ hosts) = elim (Bool-cases (h == "*")) [
  | inl star ↦ ("*", [], rw star refl)
  | inr other ↦ rw other (domains_loop-cons d (ds ++ h ∷ (join_host_port h "*" ∷ [])) hosts)
]

host_with-some :
    (host : String) (hosts : List String) (rs : List (Option Route))
    → (vh : VirtualHost) × (host_with (domains_loop [] (host ∷ hosts)) rs ≡ some vh)
      × (vh.routes ≡ rs)
unfolding domains_loop host_with
host_with-some host hosts rs = elim (Bool-cases (host == "*")) [
  | inl star ↦ rw star (_, refl, refl)
  | inr other ↦ rw other (
      let (x, xs, e) = domains_loop-cons host (join_host_port host "*" ∷ []) hosts in
      rw e (_, refl, refl))
]

-- Where the routes of a virtual host with at least one host name are built and none of them is nil,
-- the virtual host is built as well. Its routes are the built ones in another order: each is at
-- least the later ones in the lexicographic order of the length of the exact path, of the regular
-- expression and of the prefix and the numbers of header and of query matches, and the routes that
-- are level with one another keep the order in which they were built.
pub new_virtual_host-order :
    (infra : Infra) (http_routes : List HttpRoute) (param : VirtualHostParameter) (host : String)
    (hosts : List String)
    → param.host_names ≡ host ∷ hosts
    → (built : List Route) → routes_for http_routes param ≡ some (map some built)
    → (vh : VirtualHost) × (sorted : List Route) × (new_virtual_host infra http_routes param
        ≡ some vh)
      × (vh.routes ≡ map some sorted)
      × Perm sorted built
      × IsByRank infra sorted
      × ((c : Route) → keep (is_level infra c) sorted ≡ keep (is_level infra c) built)
unfolding new_virtual_host
new_virtual_host-order infra http_routes param host hosts named built e =
    let sorted = stable_sort (less infra) built in
    let (vh, made, routes) = host_with-some host hosts (map some sorted) in
    (
      vh,
      sorted,
      rw (e, named) (rw (sort_routes-map-some infra built) made),
      routes,
      stable_sort-perm (less infra) built,
      IsOrdered-IsByRank infra sorted
          (stable_sort-IsOrdered (less infra) (less-IsWeakOrder infra) built),
      λ c.
          keep-stable_sort (less infra) (is_level infra c)
            (λ a b ha hb. less_level infra c b a hb ha) built,
    )
