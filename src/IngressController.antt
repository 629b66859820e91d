-- ===== src/IngressController.antt =====
-- pkg/ingress: which Ingresses are managed, and the resources that the reconciler builds for one of
-- its own or for those that share a load balancer. The calls of the client are left out: what they
-- return is an argument. `none` is a panic, and `inl` an error.
pub mod Dedicated
pub mod Laws
use controller_powered_by_di.Base.{
  ◌<>◌, ℕ, String, Bool, true, false, ◌&&◌, ◌||◌, not, Option, none, some, List, [], ◌∷◌, ◌++◌,
  ◌==◌, ◌⊎◌, inl, inr, ◌>>=◌, if◌then◌else◌, any, fold, is_nil, num_eq, ltb,
}
use controller_powered_by_di.Base.Text.{has_prefix}
use controller_powered_by_di.Base.Sort.{text_lt}
use controller_powered_by_di.Base.StableSort.{stable_sort}
use controller_powered_by_di.Base.Assoc.{find, upsert}
use controller_powered_by_di.Base.ParseInt.{parse_bool}
use controller_powered_by_di.Api.{Ingress}
use controller_powered_by_di.Model
use controller_powered_by_di.Model.{HttpListener, TlsListener}
use controller_powered_by_di.Ingestion.Annotations.{
  Lookups, get_annotation_ingress_loadbalancer_mode, get_annotation_tls_passthrough_enabled,
  get_annotation_host_listener_port,
}
use controller_powered_by_di.Ingestion.Ingress.{ingress}
use controller_powered_by_di.Ingestion.Ingress.Passthrough.{ingress_passthrough}
use controller_powered_by_di.Translation.Infra.{Infra}
use controller_powered_by_di.Translation.Settings.{DefaultTranslator}
use controller_powered_by_di.Translation.Translator.{DolphinEnvoyConfig, translate}
use controller_powered_by_di.Translation.Ingress.{
  IngressService, IngressEndpoints, TranslatedIngress, DedicatedIngressTranslator, ingress_owner,
  translate_ingress, ingress_source,
}

-- The fields that are read. The annotations of the class `dolphin` are an argument, where it exists.
pub record IngressReconciler : Type 0 where
  pub enforced_https : Bool
  pub lb_annotation_prefixes : List String
  pub default_loadbalancer_mode : String
  pub default_secret_namespace : String
  pub default_secret_name : String
  pub default_request_timeout : ℕ
  pub host_network_enabled : Bool
  pub host_network_shared_port : ℕ
  pub shared_translator : DefaultTranslator
  pub dedicated_translator : DedicatedIngressTranslator

-- A nil map is the empty list.
abbrev Labels : Type 0
Labels = List (String × String)

-- The annotation, where it is set, and else the field.
unfoldable pub ingress_class_name : Ingress → Option String
unfolding find
ingress_class_name ing = elim (find (λ a b. a == b) "kubernetes.io/ingress.class" ing.annotations) [
  | some class_name ↦ some class_name
  | none ↦ ing.class_name
]

-- `none` is an error.
unfoldable pub is_ingress_class_marked_as_default : Labels → Option Bool
unfolding find parse_bool
is_ingress_class_marked_as_default annotations =
    elim (find (λ a b. a == b) "ingressclass.kubernetes.io/is-default-class" annotations) [
      | none ↦ some false
      | some val ↦ parse_bool val
    ]

unfoldable pub is_dolphin_default_ingress_controller : Option Labels → Bool
unfolding is_ingress_class_marked_as_default
is_dolphin_default_ingress_controller none = false
is_dolphin_default_ingress_controller (some annotations) =
    elim (is_ingress_class_marked_as_default annotations) [ none ↦ false | some b ↦ b ]

-- The first line logs the class through its pointer.
unfoldable pub is_dolphin_managed_ingress : Option Labels → Ingress → Option Bool
unfolding ingress_class_name is_dolphin_default_ingress_controller
is_dolphin_managed_ingress dolphin_class ing = do
  class_name ← ingress_class_name ing
  some (
      (class_name == "dolphin")
      || ((class_name == "") && is_dolphin_default_ingress_controller dolphin_class))

unfoldable pub at_least_one_prefix_match : String → List String → Bool
unfolding has_prefix
at_least_one_prefix_match s prefixes = any (has_prefix s) prefixes

copy_entries : List String → Labels → Labels → Labels
unfolding at_least_one_prefix_match upsert
copy_entries prefixes [] dst = dst
copy_entries prefixes ((k, v) ∷ src) dst =
    copy_entries prefixes src
      (if at_least_one_prefix_match k prefixes then upsert (λ a b. a == b) k v dst else dst)

-- The destination is the second map.
unfoldable pub merge_map : Labels → Labels → List String → Labels
unfolding copy_entries
merge_map src dst prefixes = if is_nil src then dst else copy_entries prefixes src dst

abbrev ingress_before : Ingress → Ingress → Bool
unfolding text_lt
ingress_before a b = text_lt (a.namespace <> ("/" <> a.name)) (b.namespace <> ("/" <> b.name))

abbrev no_listeners : Model.Model
no_listeners = record { http = []; tls = []; tcp = []; udp = [] }

module _ (r : IngressReconciler) where
  unfoldable pub is_effective_loadbalancer_mode_dedicated : Lookups → Ingress → Bool
  unfolding get_annotation_ingress_loadbalancer_mode
  is_effective_loadbalancer_mode_dedicated lookups ing =
      let mode = get_annotation_ingress_loadbalancer_mode lookups ing.annotations in
      if mode == "dedicated"
      then true
      else if mode == "shared"
      then false
      else r.default_loadbalancer_mode == "dedicated"

  -- The ports of passthrough, HTTP and HTTPS.
  unfoldable pub get_dedicated_listener_ports : Lookups → Ingress → ℕ × (ℕ × ℕ)
  unfolding get_annotation_host_listener_port
  get_dedicated_listener_ports lookups ing =
      if not r.host_network_enabled
      then (443, (80, 443))
      else elim (get_annotation_host_listener_port lookups ing.annotations) [
        | none ↦ (8080, (8080, 8080))
        | some none ↦ (8080, (8080, 8080))
        | some (some port) ↦ if num_eq port 0 then (8080, (8080, 8080)) else (port, (port, port))
      ]

  unfoldable pub get_shared_listener_ports : ℕ × (ℕ × ℕ)
  get_shared_listener_ports =
      if not r.host_network_enabled
      then (443, (80, 443))
      else if ltb 0 r.host_network_shared_port
      then (r.host_network_shared_port, (r.host_network_shared_port, r.host_network_shared_port))
      else (8080, (8080, 8080))

  -- The service's map stands where the source is expected.
  unfoldable pub propagate_ingress_annotations_and_labels :
      Ingress → IngressService → IngressService
  unfolding merge_map
  propagate_ingress_annotations_and_labels ing service =
      if is_nil r.lb_annotation_prefixes then service else record service {
        annotations = merge_map service.annotations ing.annotations r.lb_annotation_prefixes;
        labels = merge_map service.labels ing.labels r.lb_annotation_prefixes;
      }

  -- The listeners of an Ingress, after those of the model.
  add_ingress : Lookups → ℕ → ℕ → Ingress → Model.Model → Option Model.Model
  unfolding get_annotation_tls_passthrough_enabled ingress ingress_passthrough
  add_ingress lookups insecure_port secure_port ing m =
      if get_annotation_tls_passthrough_enabled lookups ing.annotations
      then (do tls ← ingress_passthrough lookups ing; some (record m { tls = m.tls ++ tls }))
      else (do
        http ←
            ingress lookups ing r.default_secret_namespace r.default_secret_name r.enforced_https
              insecure_port secure_port r.default_request_timeout
        some (record m { http = m.http ++ http }))

  -- The configuration is owned by the Ingress; setting the owner is taken to succeed.
  finish : Ingress → String ⊎ TranslatedIngress → String ⊎ TranslatedIngress
  unfolding propagate_ingress_annotations_and_labels
  finish ing (inl e) = inl ("failed to translate model into resources: " <> e)
  finish ing (inr (config, (service, endpoints))) = inr (
    record config {
      owner_references = record { kind = "Ingress"; name = ing.name; uid = ing.uid } ∷ [];
    },
    (propagate_ingress_annotations_and_labels ing service, endpoints),
  )

  module _ (lookups : Lookups) (infra : Infra) (hops : ℕ) where
    unfoldable pub build_dedicated_resources : Ingress → Option (String ⊎ TranslatedIngress)
    unfolding get_dedicated_listener_ports add_ingress finish translate_ingress
    build_dedicated_resources ing = do
      m ←
          add_ingress lookups (get_dedicated_listener_ports lookups ing).1.0
            (get_dedicated_listener_ports lookups ing).1.1 ing no_listeners
      result ← translate_ingress infra hops r.dedicated_translator (some m)
      some (finish ing result)

    is_skipped : Option Labels → Ingress → Option Bool
    unfolding is_dolphin_managed_ingress is_effective_loadbalancer_mode_dedicated
    is_skipped dolphin_class ing = do
      managed ← is_dolphin_managed_ingress dolphin_class ing
      some (not managed || (is_effective_loadbalancer_mode_dedicated lookups ing || ing.deleted))

    add_shared : Option Labels → List Ingress → Model.Model → Option Model.Model
    unfolding is_skipped add_ingress get_shared_listener_ports
    add_shared dolphin_class [] m = some m
    add_shared dolphin_class (ing ∷ ings) m = do
      skipped ← is_skipped dolphin_class ing
      m' ←
          if skipped
          then some m
          else add_ingress lookups get_shared_listener_ports.1.0 get_shared_listener_ports.1.1 ing m
      add_shared dolphin_class ings m'

    -- For the Ingresses that the client lists.
    unfoldable pub build_shared_resources : Option Labels → List Ingress → Option DolphinEnvoyConfig
    unfolding add_shared ingress_before stable_sort translate
    build_shared_resources dolphin_class ings = do
      m ← add_shared dolphin_class (stable_sort ingress_before ings) no_listeners
      translate infra hops r.shared_translator m
