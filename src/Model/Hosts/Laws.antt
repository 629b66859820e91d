-- ===== src/Model/Hosts/Laws.antt =====
-- `ComputeHosts` against the relation `Matches`.
use controller_powered_by_di.Base.{
  ◌<>◌, String, ◌≡◌, ◌≢◌, ◌↔◌, ◌⊎◌, inl, inr, refl, sym, ◌∙◌, true, false, Option, none, some, List,
  [], ◌∷◌, ◌==◌, arith, eq_iff, eq_refl, Bool-cases, Option-cases, Any, here, there, if◌then◌else◌,
  deref_or, contains, ap, ◌+◌,
}
use Prim.Native.String.{len}
use Prim.Native.String.len as len_text
use text.Mathlib.TextPositions.{len-append}
use text.Mathlib.TextLemmas.{append_assoc, append-ne-nil_of_right_ne-nil}
use controller_powered_by_di.Base.Text.{is_empty, is_empty_iff, has_prefix, has_prefix_complete}
use controller_powered_by_di.Base.Sort.{IsAscending, sort_texts-IsAscending, any-sort_texts}
use controller_powered_by_di.Model.Hosts.{
  all_hosts, hostname_matches_wildcard_hostname, host_for, hosts_loop, compute_hosts,
}
use controller_powered_by_di.Model.Hosts.Matching.{
  Matches, exactly, by_wildcard, IsUnder, len-pos, Matches-of_wildcard,
  hostname_matches_wildcard_hostname_iff,
}

-- The hostname that a route's hostname gives under a listener's hostname, where "" is a listener
-- with no hostname: the route's if the listener's matches it, or the listener's own if that is no
-- wildcard and the route's matches it.
pub data Shared (listener route host : String) : Type 0 where
  from_route : host ≡ route → (listener ≡ "") ⊎ Matches listener route → Shared listener route host
  from_listener :
      host ≡ listener
      → listener ≢ ""
      → has_prefix listener all_hosts ≡ false
      → Matches route listener
      → Shared listener route host

host_for_sound : (l r h : String) → host_for l r ≡ some h → Shared l r h
unfolding host_for
host_for_sound l r h e = elim (Bool-cases (is_empty l)) [
  | inl empty ↦ from_route (ground arith) (inl ((is_empty_iff l).0 empty))
  | inr filled ↦ elim (Bool-cases (l == r)) [
    | inl same ↦ from_route (ground arith) (inr (exactly ((eq_iff l r).0 same)))
    | inr differ ↦ elim (Bool-cases (has_prefix l all_hosts)) [
      | inl wild ↦ from_route (ground arith) (inr (Matches-of_wildcard l r wild (ground arith)))
      | inr plain ↦
          from_listener (ground arith) (λ p. ground (arith, (is_empty_iff l).1 p)) plain
            (Matches-of_wildcard r l (ground arith) (ground arith))
    ]
  ]
]

wildcard_of_Matches :
    (pattern host : String)
    → Matches pattern host
    → (pattern ≡ host)
      ⊎ ((has_prefix pattern all_hosts ≡ true)
          × (hostname_matches_wildcard_hostname host pattern ≡ true))
wildcard_of_Matches pattern host (exactly e) = inl e
wildcard_of_Matches pattern host (by_wildcard rest e under) = inr (
  rw e (has_prefix_complete all_hosts rest),
  rw e ((hostname_matches_wildcard_hostname_iff host rest).1 under),
)

host_for_complete : (l r h : String) → Shared l r h → host_for l r ≡ some h
unfolding host_for
host_for_complete l r h (from_route e (inl none_set)) = rw (none_set, e) refl
host_for_complete l r h (from_route e (inr m)) =
    ground (arith, wildcard_of_Matches l r m, eq_iff l r)
host_for_complete l r h (from_listener e filled plain m) =
    ground (arith, wildcard_of_Matches r l m, eq_iff l r, is_empty_iff l)

hosts_loop_sound :
    (l : String) (routes : List String) (h : String)
    → contains (hosts_loop l routes) h ≡ true
    → Any (λ r. Shared l r h) routes
unfolding hosts_loop
hosts_loop_sound l [] h e = cc
hosts_loop_sound l (r ∷ routes) h e = elim (Option-cases (host_for l r)) [
  | inl skipped ↦ there (hosts_loop_sound l routes h (rw skipped at e))
  | inr (x, found) ↦ elim (Bool-cases (x == h)) [
    | inl same ↦ here (host_for_sound l r h (found ∙ ap some ((eq_iff x h).0 same)))
    | inr differ ↦ there (hosts_loop_sound l routes h (rw differ at (rw found at e)))
  ]
]

hosts_loop_complete :
    (l : String) (routes : List String) (h : String)
    → Any (λ r. Shared l r h) routes
    → contains (hosts_loop l routes) h ≡ true
unfolding hosts_loop
hosts_loop_complete l [] h x = elim x [ ]
hosts_loop_complete l (r ∷ routes) h (here s) = rw (host_for_complete l r h s) (rw (eq_refl h) refl)
hosts_loop_complete l (r ∷ routes) h (there s) = elim (Option-cases (host_for l r)) [
  | inl skipped ↦ rw skipped (hosts_loop_complete l routes h s)
  | inr (x, found) ↦ rw found (ground (arith, hosts_loop_complete l routes h s))
]

-- For a route with hostnames, `ComputeHosts` returns exactly the hostnames that one of the route's
-- hostnames gives under the listener's, and returns them in ascending order.
pub compute_hosts_iff :
    (r : String) (routes : List String) (listener : Option String) (h : String)
    → ((contains (compute_hosts (r ∷ routes) listener) h ≡ true)
        ↔ Any (λ r. Shared (deref_or listener "") r h) (r ∷ routes))
      × IsAscending (compute_hosts (r ∷ routes) listener)
unfolding compute_hosts
compute_hosts_iff r routes listener h =
    let l : String = deref_or listener "" in
    let same = any-sort_texts (λ x. x == h) (hosts_loop l (r ∷ routes)) in
    (
      (
        λ e. hosts_loop_sound l (r ∷ routes) h (sym same ∙ e),
        λ s. same ∙ hosts_loop_complete l (r ∷ routes) h s,
      ),
      sort_texts-IsAscending (hosts_loop l (r ∷ routes)),
    )

-- A route with no hostname takes the listener's, and matches every host where the listener has
-- none or an empty one.
pub compute_hosts-nil :
    (listener : Option String)
    → compute_hosts [] listener
      ≡ ((if is_empty (deref_or listener "") then all_hosts else deref_or listener "") ∷ [])
unfolding compute_hosts
compute_hosts-nil none = refl
compute_hosts-nil (some h) = ground arith

host_for-wider :
    (label rest : String)
    → label ≢ ""
    → host_for (all_hosts <> (label <> rest)) (all_hosts <> rest) ≡ none
unfolding host_for
host_for-wider label rest filled = ground (
  arith,
  differ,
  has_prefix_complete all_hosts (label <> rest),
  is_empty_iff (all_hosts <> (label <> rest)),
  filled_star,
  not_under,
  eq_iff (all_hosts <> (label <> rest)) (all_hosts <> rest),
)
  where
    lengths : len (all_hosts <> (label <> rest)) ≡ 1 + len label + len rest
    lengths = omega (arith, len-append all_hosts (label <> rest), len-append label rest)

    shorter : len (all_hosts <> rest) ≡ 1 + len rest
    shorter = omega (arith, len-append all_hosts rest)

    differ : all_hosts <> (label <> rest) ≢ all_hosts <> rest
    differ e = omega (arith, ap len e, lengths, shorter, len-pos label filled)

    filled_star : all_hosts <> (label <> rest) ≢ ""
    filled_star e = omega (arith, ap len e, lengths, len_text.nil)

    not_under :
        hostname_matches_wildcard_hostname (all_hosts <> rest) (all_hosts <> (label <> rest)) ≢ true
    not_under h =
        let (p, some_label, e) =
          (hostname_matches_wildcard_hostname_iff (all_hosts <> rest) (label <> rest)).0 h in
        omega (
          arith,
          ap len e,
          shorter,
          len-append p (label <> rest),
          len-append label rest,
          len-pos p some_label,
          len-pos label filled,
        )

-- Two wildcards, the route's wider than the listener's: no hostname is computed, although every
-- hostname under the listener's wildcard is under the route's.
pub wider_route_wildcard :
    (label rest : String)
    → label ≢ ""
    → (compute_hosts ((all_hosts <> rest) ∷ []) (some (all_hosts <> (label <> rest))) ≡ [])
      × ((host : String) → IsUnder host (label <> rest) → IsUnder host rest)
unfolding compute_hosts hosts_loop
wider_route_wildcard label rest filled = (
  rw (host_for-wider label rest filled) refl,
  λ host (p, some_label, e).
      (p <> label, append-ne-nil_of_right_ne-nil p filled, e ∙ sym (append_assoc p label rest)),
)
