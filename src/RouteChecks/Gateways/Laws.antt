-- ===== src/RouteChecks/Gateways/Laws.antt =====
-- When the checks of a route against a Gateway pass.
use controller_powered_by_di.Base.{
  ℕ, String, Bool, true, false, not, ◌≡◌, ◌≢◌, ◌↔◌, ◌⊎◌, inl, inr, refl, Option, none, some, List,
  [], ◌∷◌, ◌++◌, Any, Any-map, here, there, any_iff, is_nil, gather, arith, eq_iff,
}
use controller_powered_by_di.Api.{ParentReference, RouteParentStatus, Gateway, Listener}
use controller_powered_by_di.Model.Hosts.{compute_hosts}
use controller_powered_by_di.Model.Hosts.Taken.{TakesRoute, compute_hosts-TakesRoute}
use controller_powered_by_di.RouteChecks.Status.{Input, Lookup}
use controller_powered_by_di.RouteChecks.Verdict.{Verdict, pass-Verdict, fail-Verdict}
use controller_powered_by_di.RouteChecks.Gateways.{
  ports_check, check_gateway_matching_ports, section_check, check_gateway_matching_section,
  hostnames_check, check_gateway_matching_hostnames, compute_hosts_for_gateway, decide,
}

-- The Gateway was read, and has the property.
abbrev pub IfFound : (Gateway → Type 0) → Lookup Gateway → Type 0
IfFound P (Lookup.failed _) = ⊥
IfFound P Lookup.nil = ⊥
IfFound P (Lookup.found gw) = P gw

-- A reference that names a port names that of a listener.
abbrev pub PortFits : Option ℕ → Gateway → Type 0
PortFits none gw = Unit
PortFits (some port) gw = Any (λ l. l.port ≡ port) gw.listeners

-- A reference that names a section names a listener.
abbrev pub SectionFits : Option String → Gateway → Type 0
SectionFits none gw = Unit
SectionFits (some name) gw = Any (λ l. l.name ≡ name) gw.listeners

-- Some listener takes the route.
abbrev pub HostFits : List String → Gateway → Type 0
HostFits hostnames gw = Any (λ l. TakesRoute hostnames l.hostname) gw.listeners

-- The check returns, with the verdict.
abbrev pub Decides :
    Type 0
    → ParentReference
    → List RouteParentStatus
    → Option (Bool × List RouteParentStatus)
    → Type 0
Decides Passes ref parents result =
    (after : Bool × List RouteParentStatus) × (result ≡ some after)
    × Verdict Passes "Accepted" ref parents after

module _ (input : Input) (ref : ParentReference) (parents : List RouteParentStatus) where
  pub decide-Decides :
      (P : Type 0) (test : Bool) (reason message : String)
      → (test ≡ true) ↔ P
      → Decides P ref parents (some (decide input ref test reason message parents))
  decide-Decides P true reason message iff =
      (_, refl, pass-Verdict P "Accepted" input ref parents (iff.0 refl))
  decide-Decides P false reason message iff =
      (_, refl, fail-Verdict P "Accepted" input ref parents _ refl refl (λ p. cc (iff.1 p)))

  ports_check-Decides :
      (gw : Lookup Gateway) (port : Option ℕ)
      → gw ≢ Lookup.nil
      → Decides (IfFound (PortFits port) gw) ref parents (ports_check input ref gw port parents)
  unfolding ports_check
  ports_check-Decides (Lookup.failed m) port h =
      (_, refl, fail-Verdict ⊥ "Accepted" input ref parents _ refl refl (λ p. p))
  ports_check-Decides Lookup.nil port h = elim (h refl) [ ]
  ports_check-Decides (Lookup.found gw) none h =
      (_, refl, pass-Verdict Unit "Accepted" input ref parents tt)
  ports_check-Decides (Lookup.found gw) (some port) h =
      decide-Decides (PortFits (some port) gw) _ _ _ (
        λ e. Any-map (λ l hit. ground arith) ((any_iff _ gw.listeners).0 e),
        λ a. (any_iff _ gw.listeners).1 (Any-map (λ l hit. ground arith) a),
      )

  section_check-Decides :
      (gw : Lookup Gateway) (name : Option String)
      → gw ≢ Lookup.nil
      → Decides
          (IfFound (SectionFits name) gw)
          ref
          parents
          (section_check input ref gw name parents)
  unfolding section_check
  section_check-Decides (Lookup.failed m) name h =
      (_, refl, fail-Verdict ⊥ "Accepted" input ref parents _ refl refl (λ p. p))
  section_check-Decides Lookup.nil name h = elim (h refl) [ ]
  section_check-Decides (Lookup.found gw) none h =
      (_, refl, pass-Verdict Unit "Accepted" input ref parents tt)
  section_check-Decides (Lookup.found gw) (some name) h =
      decide-Decides (SectionFits (some name) gw) _ _ _ (
        λ e. Any-map (λ l. (eq_iff l.name name).0) ((any_iff _ gw.listeners).0 e),
        λ a. (any_iff _ gw.listeners).1 (Any-map (λ l. (eq_iff l.name name).1) a),
      )

  -- Where the Gateway can be looked up without a nil pointer, the check of the port returns, and
  -- passes exactly where the Gateway was read and a port named is that of a listener. It changes
  -- nothing where it passes; where it does not, `Accepted` is false at the parent, and the
  -- route's status at other parents stays.
  pub check_gateway_matching_ports-Decides :
      input.get_gateway ref ≢ Lookup.nil
      → Decides
          (IfFound (PortFits ref.port) (input.get_gateway ref))
          ref
          parents
          (check_gateway_matching_ports input ref parents)
  unfolding check_gateway_matching_ports
  check_gateway_matching_ports-Decides h = ports_check-Decides (input.get_gateway ref) ref.port h

  -- The same for the section: it passes exactly where the Gateway was read and a section named
  -- is a listener's name.
  check_gateway_matching_section-Decides :
      input.get_gateway ref ≢ Lookup.nil
      → Decides
          (IfFound (SectionFits ref.section_name) (input.get_gateway ref))
          ref
          parents
          (check_gateway_matching_section input ref parents)
  unfolding check_gateway_matching_section
  check_gateway_matching_section-Decides h =
      section_check-Decides (input.get_gateway ref) ref.section_name h

is_nil_iff : (xs : List String) → (not (is_nil xs) ≡ true) ↔ (xs ≢ [])
is_nil_iff [] = (λ h. cc, λ ne. elim (ne refl) [ ])
is_nil_iff (x ∷ xs) = (λ _ e. cc, λ _. refl)

append_iff : (xs rest : List String) → (xs ++ rest ≢ []) ↔ ((xs ≢ []) ⊎ (rest ≢ []))
append_iff [] rest = (inr, λ h. elim h [ inl ne ↦ elim (ne refl) [ ] | inr ne ↦ ne ])
append_iff (x ∷ xs) rest = (λ _. inl (λ e. cc), λ _ e. cc)

hosts_iff :
    (hostnames : List String) (listeners : List Listener)
    → (gather (λ l. compute_hosts hostnames l.hostname) listeners ≢ [])
      ↔ Any (λ l. compute_hosts hostnames l.hostname ≢ []) listeners
hosts_iff hostnames [] = (λ ne. elim (ne refl) [ ], λ a. elim a [ ])
hosts_iff hostnames (l ∷ ls) =
    let (split, join) =
      append_iff (compute_hosts hostnames l.hostname)
        (gather (λ l. compute_hosts hostnames l.hostname) ls) in
    let (sound, complete) = hosts_iff hostnames ls in
    (
      λ ne. elim (split ne) [ inl h ↦ here h | inr h ↦ there (sound h) ],
      λ a. elim a [ here h ↦ join (inl h) | there h ↦ join (inr (complete h)) ],
    )

module _ (input : Input) (ref : ParentReference) where
  hostnames_check-Decides :
      (gw : Lookup Gateway) (parents : List RouteParentStatus)
      → gw ≢ Lookup.nil
      → Decides
          (IfFound (HostFits input.hostnames) gw)
          ref
          parents
          (hostnames_check input ref gw parents)
  unfolding hostnames_check compute_hosts_for_gateway
  hostnames_check-Decides (Lookup.failed m) parents h =
      (_, refl, fail-Verdict ⊥ "Accepted" input ref parents _ refl refl (λ p. p))
  hostnames_check-Decides Lookup.nil parents h = elim (h refl) [ ]
  hostnames_check-Decides (Lookup.found gw) parents h =
      let (sound, complete) = hosts_iff input.hostnames gw.listeners in
      let (nonempty, test) =
        is_nil_iff (gather (λ l. compute_hosts input.hostnames l.hostname) gw.listeners) in
      decide-Decides input ref parents (HostFits input.hostnames gw) _ _ _ (
        λ e.
            Any-map (λ l. (compute_hosts-TakesRoute input.hostnames l.hostname).0)
              (sound (nonempty e)),
        λ a.
            test
              (complete (Any-map (λ l. (compute_hosts-TakesRoute input.hostnames l.hostname).1) a)),
      )

  -- Where the Gateway can be looked up without a nil pointer, the check of the hostnames returns, and
  -- passes exactly where the Gateway was read and some listener takes the route: the route has no
  -- hostnames, the listener has none, or one of the route's equals the listener's, lies under the
  -- listener's wildcard, or is a wildcard that the listener's, which is no wildcard itself, lies
  -- under. So a route's wildcard that is wider than the listener's wildcard is not taken, though
  -- the two share hostnames. Where the check does not pass, `Accepted` is false at the parent. The route's
  -- status at other parents stays.
  pub check_gateway_matching_hostnames-Decides :
      (parents : List RouteParentStatus)
      → input.get_gateway ref ≢ Lookup.nil
      → Decides
          (IfFound (HostFits input.hostnames) (input.get_gateway ref))
          ref
          parents
          (check_gateway_matching_hostnames input ref parents)
  unfolding check_gateway_matching_hostnames
  check_gateway_matching_hostnames-Decides parents h =
      hostnames_check-Decides (input.get_gateway ref) parents h
