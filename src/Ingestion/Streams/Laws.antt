-- ===== src/Ingestion/Streams/Laws.antt =====
-- How many routes come out of `toTLSRoutes`, `toTCPRoutes` and `toUDPRoutes`.
use mathlib.Core.List.{append_assoc}
use native.Mathlib.Nat.{suc-mul}
use controller_powered_by_di.Base.{
  ◌*◌, String, ◌≡◌, refl, sym, ap, ◌∙◌, List, [], ◌∷◌, ◌++◌, map, gather, length, length-append,
  arith,
}
use controller_powered_by_di.Api.{ReferenceGrant, Service, Listener, BackendRule, TlsRoute}
use controller_powered_by_di.Model
use controller_powered_by_di.Ingestion.Streams.{tls_rules, tls_rule_route, tls_round, to_tls_routes}

module _ {ℓ κ} {A : Type ℓ} {B : Type κ} where
  length-map : (f : A → B) (xs : List A) → length (map f xs) ≡ length xs
  length-map f [] = refl
  length-map f (x ∷ xs) = omega (arith, length-map f xs)

  -- A constant body gives its items once for each item of the list.
  length-gather-const :
      (ys : List B) (xs : List A) → length (gather (λ _. ys) xs) ≡ length xs * length ys
  length-gather-const ys [] = omega arith
  length-gather-const ys (x ∷ xs) = omega (
    arith,
    length-append ys (gather (λ _. ys) xs),
    length-gather-const ys xs,
    suc-mul (length xs) (length ys),
  )

gather-append {ℓ κ} :
    {A : Type ℓ} {B : Type κ} (f : A → List B) (xs ys : List A)
    → gather f (xs ++ ys) ≡ gather f xs ++ gather f ys
gather-append f [] ys = refl
gather-append f (x ∷ xs) ys =
    ap (λ l. f x ++ l) (gather-append f xs ys)
    ∙ sym (append_assoc (f x) (gather f xs) (gather f ys))

module _ (listener : Listener) (services : List Service) (grants : List ReferenceGrant) where
  -- The rules of the routes that are attached to the listener and share a hostname with it, each
  -- with the hostnames shared.
  abbrev pub attached_rules : List TlsRoute → List (List String × BackendRule)
  attached_rules input = gather (tls_rules listener services grants) input

  abbrev rule_route : TlsRoute → List String × BackendRule → Model.TlsRoute
  rule_route r (hosts, rule) = tls_rule_route listener services grants r.namespace hosts rule

  length-tls_round :
      (input : List TlsRoute)
      → length (tls_round listener services grants input) ≡ length (attached_rules input)
  unfolding tls_round
  length-tls_round [] = refl
  length-tls_round (r ∷ rs) = omega (
    arith,
    length-append (map (rule_route r) (tls_rules listener services grants r))
        (tls_round listener services grants rs),
    length-append (tls_rules listener services grants r) (attached_rules rs),
    length-map (rule_route r) (tls_rules listener services grants r),
    length-tls_round rs,
  )

  -- The outer loop is one run of the inner loop for each attached rule.
  outer_loop :
      (all input : List TlsRoute)
      → gather
          (λ route.
            gather
              (λ _. tls_round listener services grants all)
              (tls_rules listener services grants route))
          input
        ≡ gather (λ _. tls_round listener services grants all) (attached_rules input)
  outer_loop all [] = refl
  outer_loop all (r ∷ rs) =
      ap
        (λ l.
          gather (λ _. tls_round listener services grants all)
            (tls_rules listener services grants r)
          ++ l)
        (outer_loop all rs)
      ∙ sym (
          gather-append (λ _. tls_round listener services grants all)
            (tls_rules listener services grants r) (attached_rules rs))

  -- The result has a route for every pair of attached rules: where n rules are attached, n times n
  -- routes come out, and not n.
  pub length-to_tls_routes :
      (input : List TlsRoute)
      → length (to_tls_routes listener services grants input)
        ≡ length (attached_rules input) * length (attached_rules input)
  unfolding to_tls_routes
  length-to_tls_routes input =
      ap length (outer_loop input input)
      ∙ length-gather-const (tls_round listener services grants input) (attached_rules input)
      ∙ ap (λ n. length (attached_rules input) * n) (length-tls_round input)
