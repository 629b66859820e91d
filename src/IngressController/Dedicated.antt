-- ===== src/IngressController/Dedicated.antt =====
-- pkg/ingress/ingress_reconcile.go: what is built for a dedicated Ingress.
use controller_powered_by_di.Base.{
  ◌<>◌, ℕ, String, Option, some, [], ◌∷◌, ◌≡◌, ◌⊎◌, refl, ◌∙◌, sym, subst, inl, inr, >>=-eq-some,
  some_inj, is_nil, if◌then◌else◌, Bool-cases,
}
use controller_powered_by_di.Api.{Ingress}
use controller_powered_by_di.Model
use controller_powered_by_di.Ingestion.Annotations.{Lookups, get_annotation_tls_passthrough_enabled}
use controller_powered_by_di.Ingestion.Ingress.{ingress, ingress_source}
use controller_powered_by_di.Ingestion.Ingress.Passthrough.{ingress_passthrough}
use controller_powered_by_di.Ingestion.Ingress.Sources.{
  ingress-sources, ingress_passthrough-sources,
}
use controller_powered_by_di.Translation.Infra.{Infra}
use controller_powered_by_di.Translation.Ingress as Dedicated
use controller_powered_by_di.Translation.Ingress.{
  IngressService, IngressEndpoints, TranslatedIngress, translate_ingress, translate_ingress-IsFor,
  ingress_source-of, IsFor,
}
use controller_powered_by_di.IngressController.{
  IngressReconciler, add_ingress, get_dedicated_listener_ports, no_listeners, finish, merge_map,
  build_dedicated_resources, propagate_ingress_annotations_and_labels,
}

-- The resources are named for the Ingress and owned by it.
abbrev pub IsOwned : IngressReconciler → Ingress → TranslatedIngress → Type 0
IsOwned r ing t =
    (t.0.owner_references ≡ record { kind = "Ingress"; name = ing.name; uid = ing.uid } ∷ [])
    × (t.0.name ≡ "dolphin-ingress" <> ("-" <> (ing.namespace <> ("-" <> ing.name))))
    × (t.1.0.name ≡ "dolphin-ingress" <> ("-" <> ing.name))
    × (t.1.0.namespace ≡ ing.namespace)
    × (t.1.0.annotations ≡ (if is_nil r.lb_annotation_prefixes then [] else ing.annotations))
    × (t.1.1.name ≡ t.1.0.name)
    × (t.1.1.namespace ≡ t.1.0.namespace)

module _ (r : IngressReconciler) (lookups : Lookups) (infra : Infra) (hops : ℕ)
    (ing : Ingress) where
  add_ingress-source :
      (insecure_port secure_port : ℕ) (m : Model.Model)
      → add_ingress r lookups insecure_port secure_port ing no_listeners ≡ some m
      → (x : Model.FullyQualifiedResource × Option Model.Service)
      → Dedicated.ingress_source m ≡ some (some x)
      → x.0 ≡ ingress_source ing
  unfolding add_ingress
  add_ingress-source insecure_port secure_port m e =
      elim (Bool-cases (get_annotation_tls_passthrough_enabled lookups ing.annotations)) [
        | inl passes ↦
            let (tls, e1, e2) =
              >>=-eq-some (ingress_passthrough lookups ing) _ (rw (passes, add_ingress) at e) in
            subst
              (λ m.
                (x : Model.FullyQualifiedResource × Option Model.Service)
                → Dedicated.ingress_source m ≡ some (some x)
                → x.0 ≡ ingress_source ing)
              (some_inj e2)
              (ingress_source-of (ingress_source ing) [] tls [] [] tt
                (ingress_passthrough-sources lookups ing tls e1))
        | inr ends ↦
            let (http, e1, e2) =
              >>=-eq-some
                (ingress lookups ing r.default_secret_namespace r.default_secret_name
                  r.enforced_https insecure_port secure_port r.default_request_timeout)
                _ (rw (ends, add_ingress) at e) in
            subst
              (λ m.
                (x : Model.FullyQualifiedResource × Option Model.Service)
                → Dedicated.ingress_source m ≡ some (some x)
                → x.0 ≡ ingress_source ing)
              (some_inj e2)
              (ingress_source-of (ingress_source ing) http [] [] []
                (ingress-sources lookups ing r.default_secret_namespace r.default_secret_name
                  r.enforced_https insecure_port secure_port r.default_request_timeout http e1)
                tt)
      ]

  propagated-annotations :
      (service : IngressService)
      → service.annotations ≡ []
      → (propagate_ingress_annotations_and_labels r ing service).annotations
        ≡ (if is_nil r.lb_annotation_prefixes then [] else ing.annotations)
  unfolding propagate_ingress_annotations_and_labels merge_map
  propagated-annotations service bare = elim (Bool-cases (is_nil r.lb_annotation_prefixes)) [
    | inl nil ↦ rw nil bare
    | inr has ↦ rw (has, bare) refl
  ]

  propagated-names :
      (service : IngressService)
      → ((propagate_ingress_annotations_and_labels r ing service).name ≡ service.name)
        × ((propagate_ingress_annotations_and_labels r ing service).namespace ≡ service.namespace)
  unfolding propagate_ingress_annotations_and_labels
  propagated-names service = elim (Bool-cases (is_nil r.lb_annotation_prefixes)) [
    | inl nil ↦ rw nil (refl, refl)
    | inr has ↦ rw has (refl, refl)
  ]

  abbrev IsResultOwned : String ⊎ TranslatedIngress → Type 0
  IsResultOwned (inl e) = Unit
  IsResultOwned (inr t) = IsOwned r ing t

  finish-IsOwned :
      (t : TranslatedIngress) → IsFor (ingress_source ing) t → IsResultOwned (finish r ing (inr t))
  unfolding finish
  finish-IsOwned t h =
      let (config_name, name, namespace, bare, ep_name, ep_namespace) = h in
      let (kept_name, kept_namespace) = propagated-names t.1.0 in
      (
        refl,
        config_name,
        kept_name ∙ name,
        kept_namespace ∙ namespace,
        propagated-annotations t.1.0 bare,
        ep_name ∙ sym kept_name,
        ep_namespace ∙ sym kept_namespace,
      )

  -- Where the resources of a dedicated Ingress are built, the configuration, the service and the
  -- endpoints are named for the Ingress, the service and the endpoints stand in its namespace, and
  -- the configuration is owned by the Ingress alone. The annotations of the service are none where no
  -- prefix is configured, and else all annotations of the Ingress, whatever the prefixes. So for an
  -- Ingress test in the namespace test the configuration is dolphin-ingress-test-test, beside a
  -- service dolphin-ingress-test; the first case of TestReconcile in
  -- pkg/ingress/ingress_reconcile_test.go asks for a configuration dolphin-ingress-test and no
  -- service instead.
  pub build_dedicated_resources-IsOwned :
      (t : TranslatedIngress)
      → build_dedicated_resources r lookups infra hops ing ≡ some (inr t)
      → IsOwned r ing t
  unfolding build_dedicated_resources finish
  build_dedicated_resources-IsOwned t e =
      let ports = (get_dedicated_listener_ports r lookups ing).1 in
      let (m, e1, e2) = >>=-eq-some (add_ingress r lookups ports.0 ports.1 ing no_listeners) _ e in
      let (result, e3, e4) =
        >>=-eq-some (translate_ingress infra hops r.dedicated_translator (some m)) _ e2 in
      finished m (add_ingress-source ports.0 ports.1 m e1) result e3 (some_inj e4)
    where
      finished :
          (m : Model.Model)
          → ((x : Model.FullyQualifiedResource × Option Model.Service)
              → Dedicated.ingress_source m ≡ some (some x)
              → x.0 ≡ ingress_source ing)
          → (result : String ⊎ TranslatedIngress)
          → translate_ingress infra hops r.dedicated_translator (some m) ≡ some result
          → finish r ing result ≡ inr t
          → IsOwned r ing t
      finished m of_ing (inl e) e3 e4 = cc
      finished m of_ing (inr t') e3 e4 = subst IsResultOwned e4 (
          finish-IsOwned t' (
            translate_ingress-IsFor infra hops r.dedicated_translator (ingress_source ing) m t'
              of_ing e3))
