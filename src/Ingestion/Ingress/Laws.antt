-- ===== src/Ingestion/Ingress/Laws.antt =====
-- pkg/model/ingestion/ingress.go: the order and the ports of the listeners of an Ingress.
use controller_powered_by_di.Base.{
  ℕ, String, Bool, true, Option, none, some, List, [], ◌∷◌, ◌++◌, ◌==◌, ◌≡◌, refl, ◌∙◌, ap, sym,
  subst, map, fold-keeps, Option-cases, inl, inr, All, >>=-eq-some, some_inj, eq_refl,
}
use controller_powered_by_di.Base.Sort.{IsAscending}
use controller_powered_by_di.Base.Assoc.{find}
use controller_powered_by_di.Api.{Ingress, IngressRule, HttpIngressPath}
use controller_powered_by_di.Model.{HttpListener, FullyQualifiedResource, Timeout, TlsSecret}
use controller_powered_by_di.Ingestion.Annotations.{Lookups}
use controller_powered_by_di.Ingestion.Ingress.ByHost.{
  IsByHost, upsert-IsByHost, find-IsByHost, append_values-lem,
}
use controller_powered_by_di.Ingestion.Ingress.{
  append_values_in_key_order, default_listener, add_paths, path_route, rule_host, rule_listener,
  add_rules, insecure_listeners, base_listener, with_tls, ingress_source, add_source, resource_eq,
  add_tls_host, secure_listeners, tls_for, force_https, timeout_for, get_service, ingress,
}

-- A listener that comes from one Ingress alone, on a port, and without TLS.
abbrev pub IsAt : Ingress → ℕ → HttpListener → Type 0
IsAt ing port l = (l.port ≡ port) × (l.sources ≡ ingress_source ing ∷ [])

abbrev pub IsPlain : Ingress → ℕ → HttpListener → Type 0
IsPlain ing port l = (l.tls ≡ none) × IsAt ing port l

resource_eq_refl : (r : FullyQualifiedResource) → resource_eq r r ≡ true
unfolding resource_eq
resource_eq_refl r =
    rw
      (
        eq_refl r.name,
        eq_refl r.namespace,
        eq_refl r.group,
        eq_refl r.version,
        eq_refl r.kind,
        eq_refl r.uid,
      )
      refl

pub add_source-once : (r : FullyQualifiedResource) → add_source (r ∷ []) r ≡ r ∷ []
unfolding add_source
add_source-once r = rw (resource_eq_refl r) refl

module _ (lookups : Lookups) (ing : Ingress) where
  add_paths-keeps :
      (timeout : Timeout) (paths : List HttpIngressPath) (l l' : HttpListener)
      → add_paths lookups ing timeout paths l ≡ some l'
      → (l'.hostname ≡ l.hostname)
        × (l'.port ≡ l.port)
        × (l'.tls ≡ l.tls)
        × (l'.sources ≡ l.sources)
  unfolding add_paths
  add_paths-keeps timeout [] l l' e =
      subst
        (λ x.
          (x.hostname ≡ l.hostname) × (x.port ≡ l.port) × (x.tls ≡ l.tls) × (x.sources ≡ l.sources))
        (some_inj e) (refl, refl, refl, refl)
  add_paths-keeps timeout (p ∷ paths) l l' e =
      let (r, e1, e2) = >>=-eq-some (path_route lookups ing timeout p) _ e in
      add_paths-keeps timeout paths _ l' e2

  rule_listener-IsPlain :
      (port : ℕ) (host : String) (m : List (String × HttpListener))
      → IsByHost (IsPlain ing port) m
      → IsPlain ing port (rule_listener lookups ing port host m)
  unfolding rule_listener add_source
  rule_listener-IsPlain port host m h = elim (Option-cases (find (λ a b. a == b) host m)) [
    | inl absent ↦ rw absent (refl, (refl, refl))
    | inr (l, found) ↦
        let p = (find-IsByHost (IsPlain ing port) host l m h found).1 in
        rw found (
          p.0,
          (
            refl,
            ap (λ xs. add_source xs (ingress_source ing)) p.1.1
                ∙ add_source-once (ingress_source ing),
          ),
        )
  ]

  add_rules-IsByHost :
      (timeout : Timeout) (port : ℕ) (rules : List IngressRule)
      (m m' : List (String × HttpListener))
      → add_rules lookups ing timeout port rules m ≡ some m'
      → IsByHost (IsPlain ing port) m
      → IsByHost (IsPlain ing port) m'
  unfolding add_rules rule_listener
  add_rules-IsByHost timeout port [] m m' e h = subst (IsByHost (IsPlain ing port)) (some_inj e) h
  add_rules-IsByHost timeout port (rule ∷ rules) m m' e h = elim (Option-cases rule.http) [
    | inl nil ↦ add_rules-IsByHost timeout port rules m m' (rw (nil, add_rules) at e) h
    | inr (paths, has) ↦
        let start = rule_listener lookups ing port (rule_host lookups ing rule) m in
        let (l, e1, e2) =
          >>=-eq-some (add_paths lookups ing timeout paths start) _ (rw (has, add_rules) at e) in
        let (host, at, tls, from) = add_paths-keeps timeout paths start l e1 in
        let p = rule_listener-IsPlain port (rule_host lookups ing rule) m h in
        add_rules-IsByHost timeout port rules _ m' e2 (
          upsert-IsByHost (IsPlain ing port) (rule_host lookups ing rule) l m host
            (tls ∙ p.0, (at ∙ p.1.0, from ∙ p.1.1)) h)
  ]

  default_listener-IsByHost :
      (timeout : Timeout) (port : ℕ) (m : List (String × HttpListener))
      → default_listener lookups ing timeout port ≡ some m
      → IsByHost (IsPlain ing port) m
  unfolding default_listener add_source
  default_listener-IsByHost timeout port m e = elim (Option-cases ing.default_backend) [
    | inl nil ↦ subst (IsByHost (IsPlain ing port)) (some_inj (rw (nil, default_listener) at e)) tt
    | inr (backend, has) ↦
        let (service, e1, e2) = >>=-eq-some backend _ (rw (has, default_listener) at e) in
        subst (IsByHost (IsPlain ing port)) (some_inj e2) ((refl, (refl, (refl, refl))), tt)
  ]

  insecure_listeners-IsByHost :
      (timeout : Timeout) (port : ℕ) (m : List (String × HttpListener))
      → insecure_listeners lookups ing timeout port ≡ some m
      → IsByHost (IsPlain ing port) m
  unfolding insecure_listeners
  insecure_listeners-IsByHost timeout port m e =
      let (start, e1, e2) = >>=-eq-some (default_listener lookups ing timeout port) _ e in
      add_rules-IsByHost timeout port ing.rules start m e2
        (default_listener-IsByHost timeout port start e1)

  with_tls-sources :
      (tls : Option (List TlsSecret)) (l : HttpListener)
      → (with_tls lookups ing tls l).sources ≡ l.sources
  unfolding with_tls
  with_tls-sources none l = refl
  with_tls-sources (some tls) l = refl

  -- The loops over the TLS hosts, from the listeners without TLS.
  module _ (port plain_port : ℕ) (insecure : List (String × HttpListener))
      (plain : IsByHost (IsPlain ing plain_port) insecure) where
    base_listener-sources :
        (host : String) (secure : List (String × HttpListener)) (l : HttpListener)
        → IsByHost (IsAt ing port) secure
        → base_listener lookups ing host insecure secure ≡ some l
        → l.sources ≡ ingress_source ing ∷ []
    unfolding base_listener
    base_listener-sources host secure l h e =
        elim (Option-cases (find (λ a b. a == b) host secure)) [
          | inr (l', at) ↦
              (find-IsByHost (IsAt ing port) host l secure h
                (at ∙ (rw (at, base_listener) at e))).1.1
          | inl absent ↦ elim (Option-cases (find (λ a b. a == b) host insecure)) [
            | inr (l', at) ↦
                (find-IsByHost (IsPlain ing plain_port) host l insecure plain
                  (at ∙ (rw (absent, at, base_listener) at e))).1.1.1
            | inl none_of ↦
                (find-IsByHost (IsPlain ing plain_port) "*" l insecure plain
                  (rw (absent, none_of, base_listener) at e)).1.1.1
          ]
        ]

    add_tls_host-IsByHost :
        (tls : Option (List TlsSecret)) (force : Bool) (host : String)
        (secure : List (String × HttpListener))
        → IsByHost (IsAt ing port) secure
        → IsByHost (IsAt ing port) (add_tls_host lookups ing tls force port insecure host secure)
    unfolding add_tls_host
    add_tls_host-IsByHost tls force host secure h =
        elim (Option-cases (base_listener lookups ing host insecure secure)) [
          | inl absent ↦ rw (absent, add_tls_host) h
          | inr (l, found) ↦
              let first =
                upsert-IsByHost (IsAt ing port) host
                  (record (with_tls lookups ing tls l) {
                    port = port;
                    hostname = host;
                    service = get_service lookups ing;
                    force_http_to_https_redirect = force;
                  })
                  secure refl
                  (refl, with_tls-sources tls l ∙ base_listener-sources host secure l h found) h in
              elim (Option-cases (find (λ a b. a == b) "*" insecure)) [
                | inl no_default ↦ rw (found, no_default, add_tls_host) first
                | inr (d, default) ↦
                    rw (found, default, add_tls_host)
                      (upsert-IsByHost (IsAt ing port) host
                        (record (with_tls lookups ing tls d) { hostname = host; port = port }) _
                        refl
                        (
                          refl,
                          with_tls-sources tls d
                              ∙ (find-IsByHost (IsPlain ing plain_port) "*" d insecure plain
                                  default).1.1.1,
                        )
                        first)
              ]
        ]

    secure_listeners-IsByHost :
        (default_namespace default_name : String) (enforced : Bool)
        → IsByHost
            (IsAt ing port)
            (secure_listeners lookups ing default_namespace default_name enforced port insecure)
    unfolding secure_listeners
    secure_listeners-IsByHost default_namespace default_name enforced =
        fold-keeps (IsByHost (IsAt ing port)) _
          (λ config.
            fold-keeps (IsByHost (IsAt ing port)) _
              (add_tls_host-IsByHost
                (tls_for lookups ing default_namespace default_name config.secret_name)
                (force_https lookups ing enforced))
              config.hosts)
          ing.tls [] tt

  -- Where the listeners of an Ingress are built, they are those without TLS, in the ascending order
  -- of their hostnames and on the insecure port, and then those on the secure port, in the ascending
  -- order of theirs. The one source of each is the Ingress.
  pub ingress-IsAscending :
      (default_namespace default_name : String) (enforced : Bool)
      (insecure_port secure_port default_timeout : ℕ) (listeners : List HttpListener)
      → ingress lookups ing default_namespace default_name enforced insecure_port secure_port
          default_timeout
        ≡ some listeners
      → (insecure secure : List HttpListener) × (listeners ≡ insecure ++ secure)
        × IsAscending (map (λ l. l.hostname) insecure)
        × All (IsPlain ing insecure_port) insecure
        × IsAscending (map (λ l. l.hostname) secure)
        × All (IsAt ing secure_port) secure
  unfolding ingress secure_listeners
  ingress-IsAscending default_namespace default_name enforced insecure_port secure_port
        default_timeout listeners e =
      let (m, e1, e2) =
        >>=-eq-some
          (insecure_listeners lookups ing (timeout_for lookups ing default_timeout) insecure_port) _
          e in
      let plain =
        insecure_listeners-IsByHost (timeout_for lookups ing default_timeout) insecure_port m e1 in
      let secured =
        secure_listeners-IsByHost secure_port insecure_port m plain default_namespace default_name
          enforced in
      let (vs1, made1, asc1, all1) = append_values-lem (IsPlain ing insecure_port) m [] plain in
      let (vs2, made2, asc2, all2) =
        append_values-lem (IsAt ing secure_port)
          (secure_listeners lookups ing default_namespace default_name enforced secure_port m)
          (append_values_in_key_order m []) secured in
      (vs1, vs2, sym (some_inj e2) ∙ made2 ∙ ap (λ xs. xs ++ vs2) made1, asc1, all1, asc2, all2)
