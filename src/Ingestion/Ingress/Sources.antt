-- ===== src/Ingestion/Ingress/Sources.antt =====
-- pkg/model/ingestion/ingress.go: the sources of the listeners of an Ingress.
use controller_powered_by_di.Base.{
  ℕ, String, Bool, none, some, List, [], ◌∷◌, ◌==◌, ◌≡◌, refl, ◌∙◌, ap, sym, subst, is_nil,
  Bool-cases, Option-cases, inl, inr, All, All-map, All-append, All-gather, >>=-eq-some, some_inj,
}
use controller_powered_by_di.Base.Assoc.{find, All-find, All-upsert}
use controller_powered_by_di.Api.{Ingress, IngressRule}
use controller_powered_by_di.Model.{HttpListener, TlsListener, TlsRoute}
use controller_powered_by_di.Ingestion.Annotations.{Lookups}
use controller_powered_by_di.Ingestion.Ingress.{
  append_values_in_key_order, ingress, ingress_source, add_source,
}
use controller_powered_by_di.Ingestion.Ingress.Passthrough.{
  passthrough_routes, passthrough_listener, add_passthrough_rules, ingress_passthrough,
}
use controller_powered_by_di.Ingestion.Ingress.Laws.{add_source-once, ingress-IsAscending}

All-append_values_in_key_order :
    {A : Type 0} (P : A → Type 0) (m : List (String × A))
    → All (λ e. P e.1) m
    → All P (append_values_in_key_order m [])
unfolding append_values_in_key_order
All-append_values_in_key_order P m h =
    All-gather P (λ k. elim (find (λ a b. a == b) k m) [ none ↦ [] | some v ↦ v ∷ [] ])
      (λ k. elim (Option-cases (find (λ a b. a == b) k m)) [
        | inl absent ↦ rw absent tt
        | inr (v, found) ↦ rw found ((All-find (λ a b. a == b) (λ _ v. P v) k m h found).1, tt)
      ])
      _

module _ (lookups : Lookups) (ing : Ingress) where
  abbrev IsOwn : TlsListener → Type 0
  IsOwn l = l.sources ≡ ingress_source ing ∷ []

  passthrough_listener-IsOwn :
      (host : String) (routes : List TlsRoute) (m : List (String × TlsListener))
      → All (λ e. IsOwn e.1) m
      → IsOwn (passthrough_listener lookups ing host routes m)
  unfolding passthrough_listener add_source
  passthrough_listener-IsOwn host routes m h = elim (Option-cases (find (λ a b. a == b) host m)) [
    | inl absent ↦ rw absent refl
    | inr (l, found) ↦ rw found (
        ap (λ xs. add_source xs (ingress_source ing))
          (All-find (λ a b. a == b) (λ _ v. IsOwn v) host m h found).1
        ∙ add_source-once (ingress_source ing))
  ]

  add_passthrough_rules-IsOwn :
      (rules : List IngressRule) (m m' : List (String × TlsListener))
      → add_passthrough_rules lookups ing rules m ≡ some m'
      → All (λ e. IsOwn e.1) m
      → All (λ e. IsOwn e.1) m'
  unfolding add_passthrough_rules
  add_passthrough_rules-IsOwn [] m m' e h = subst (All (λ e. IsOwn e.1)) (some_inj e) h
  add_passthrough_rules-IsOwn (rule ∷ rules) m m' e h = elim (Bool-cases (rule.host == "")) [
    | inl empty ↦ add_passthrough_rules-IsOwn rules m m' (rw (empty, add_passthrough_rules) at e) h
    | inr named ↦ elim (Option-cases rule.http) [
      | inl nil ↦
          add_passthrough_rules-IsOwn rules m m' (rw (named, nil, add_passthrough_rules) at e) h
      | inr (paths, has) ↦
          let (routes, e1, e2) =
            >>=-eq-some (passthrough_routes lookups ing paths) _
              (rw (named, has, add_passthrough_rules) at e) in
          let l = passthrough_listener lookups ing rule.host routes m in
          let own = passthrough_listener-IsOwn rule.host routes m h in
          add_passthrough_rules-IsOwn rules _ m' e2 (elim (Bool-cases (is_nil l.routes)) [
            | inl nil ↦ rw nil h
            | inr more ↦
                rw more (All-upsert (λ a b. a == b) (λ _ v. IsOwn v) rule.host l m h (λ _. own))
          ])
    ]
  ]

  pub ingress_passthrough-sources :
      (listeners : List TlsListener)
      → ingress_passthrough lookups ing ≡ some listeners
      → All (λ l. l.sources ≡ ingress_source ing ∷ []) listeners
  unfolding ingress_passthrough
  ingress_passthrough-sources listeners e =
      let (m, e1, e2) = >>=-eq-some (add_passthrough_rules lookups ing ing.rules []) _ e in
      subst (All IsOwn) (some_inj e2)
        (All-append_values_in_key_order IsOwn m (add_passthrough_rules-IsOwn ing.rules [] m e1 tt))

  pub ingress-sources :
      (default_namespace default_name : String) (enforced : Bool)
      (insecure_port secure_port default_timeout : ℕ) (listeners : List HttpListener)
      → ingress lookups ing default_namespace default_name enforced insecure_port secure_port
          default_timeout
        ≡ some listeners
      → All (λ l. l.sources ≡ ingress_source ing ∷ []) listeners
  ingress-sources default_namespace default_name enforced insecure_port secure_port default_timeout
        listeners e =
      let (insecure, secure, made, asc1, all1, asc2, all2) =
        ingress-IsAscending lookups ing default_namespace default_name enforced insecure_port
          secure_port default_timeout listeners e in
      subst (All (λ l. l.sources ≡ ingress_source ing ∷ [])) (sym made) (
        All-append _ insecure secure (All-map (λ l h. h.1.1) insecure all1)
          (All-map (λ l h. h.1) secure all2))
