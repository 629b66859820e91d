-- ===== src/Examples/Ingress.antt =====
-- Witnesses on the Ingress: one with two rules and a TLS host.
use controller_powered_by_di.Base.{
  any, true, if◌then◌else◌, String, false, Option, none, some, List, [], ◌∷◌, ◌++◌, ◌==◌, ◌≡◌, refl,
  map, All, deref_or, keep, ◌⊎◌, inr,
}
use controller_powered_by_di.Base.Assoc.{find}
use controller_powered_by_di.Base.Sort.{IsAscending, text_le}
use controller_powered_by_di.Api.{Ingress, IngressRule, IngressServiceBackend, PathType}
use controller_powered_by_di.Model.{HttpListener}
use controller_powered_by_di.Ingestion.Annotations.{Lookups}
use controller_powered_by_di.Ingestion.Ingress.{ingress}
use controller_powered_by_di.Ingestion.Ingress.Laws.{IsPlain, IsAt, ingress-IsAscending}
use controller_powered_by_di.IngressController.{
  IngressReconciler, ingress_class_name, is_dolphin_managed_ingress,
  is_effective_loadbalancer_mode_dedicated, build_dedicated_resources, build_shared_resources,
}
use controller_powered_by_di.IngressController.Dedicated.{
  IsOwned, build_dedicated_resources-IsOwned,
}
use controller_powered_by_di.IngressController.Laws.{
  has_no_class, is_shared, build_shared_resources-keep,
}
use controller_powered_by_di.Examples.Translation.{infra, translator}
use controller_powered_by_di.Translation.Ingress.{TranslatedIngress}
use controller_powered_by_di.Translation.Translator.{OwnerReference}

abbrev first_of : List (String × String) → List String → Option String
first_of annotations [] = none
first_of annotations (k ∷ ks) = elim (find (λ a b. a == b) k annotations) [
  | some v ↦ some v
  | none ↦ first_of annotations ks
]

abbrev lookups : Lookups
lookups = record { get = first_of; parse_duration = λ s. none }

abbrev service : String → IngressServiceBackend
service name = record { name = name; port_name = ""; port_number = 80 }

abbrev rule : String → String → IngressRule
rule host path = record {
  host = host;
  http = some (
      record { path = path; path_type = some PathType.prefix; service = some (service "shop") }
      ∷ []);
}

abbrev shop : Ingress
shop = record {
  name = "shop";
  namespace = "apps";
  uid = "7";
  annotations = ("note", "x") ∷ [];
  labels = [];
  deleted = false;
  class_name = some "dolphin";
  default_backend = some (some (service "home"));
  rules = rule "shop.example.com" "/" ∷ (rule "api.example.com" "/v1" ∷ []);
  tls = record { hosts = "shop.example.com" ∷ []; secret_name = "cert" } ∷ [];
}

abbrev listeners : List HttpListener
listeners = deref_or (ingress lookups shop "" "" false 80 443 0) []

listeners_made : ingress lookups shop "" "" false 80 443 0 ≡ some listeners
unfolding ingress
listeners_made = refl

listener_hosts :
    map (λ l. l.hostname) listeners
    ≡ "*" ∷ ("api.example.com" ∷ ("shop.example.com" ∷ ("shop.example.com" ∷ [])))
unfolding ingress text_le
listener_hosts = refl

ingress-IsAscending_example :
    (insecure secure : List HttpListener) × (listeners ≡ insecure ++ secure)
    × IsAscending (map (λ l. l.hostname) insecure)
    × All (IsPlain shop 80) insecure
    × IsAscending (map (λ l. l.hostname) secure)
    × All (IsAt shop 443) secure
ingress-IsAscending_example =
    ingress-IsAscending lookups shop "" "" false 80 443 0 listeners listeners_made

abbrev reconciler : IngressReconciler
reconciler = record {
  enforced_https = false;
  lb_annotation_prefixes = "service." ∷ [];
  default_loadbalancer_mode = "dedicated";
  default_secret_namespace = "";
  default_secret_name = "";
  default_request_timeout = 0;
  host_network_enabled = false;
  host_network_shared_port = 0;
  shared_translator = translator;
  dedicated_translator = record {
    secrets_namespace = "secrets";
    enforce_https = false;
    use_proxy_protocol = false;
    idle_timeout_seconds = 60;
  };
}

abbrev no_owner : OwnerReference
no_owner = record { kind = ""; name = ""; uid = "" }

abbrev no_resources : TranslatedIngress
no_resources = (
  record {
    name = "";
    namespace = "";
    labels = [];
    owner_references = [];
    backend_services = [];
    services = [];
    resources = [];
  },
  (
    record {
      name = "";
      namespace = "";
      labels = [];
      annotations = [];
      owner = no_owner;
      type = "";
      ports = [];
    },
    record { name = ""; namespace = ""; labels = []; owner = no_owner; ip = ""; port = 0 },
  ),
)

abbrev made_of : Option (String ⊎ TranslatedIngress) → TranslatedIngress
made_of (some (inr t)) = t
made_of _ = no_resources

abbrev shop_resources : TranslatedIngress
shop_resources = made_of (build_dedicated_resources reconciler lookups infra 0 shop)

shop_resources_made :
    build_dedicated_resources reconciler lookups infra 0 shop ≡ some (inr shop_resources)
unfolding build_dedicated_resources infra text_le
shop_resources_made = refl

-- The annotation has no prefix of those that are configured.
shop_service_annotations : shop_resources.1.0.annotations ≡ ("note", "x") ∷ []
unfolding build_dedicated_resources infra text_le
shop_service_annotations = refl

build_dedicated_resources-IsOwned_example : IsOwned reconciler shop shop_resources
build_dedicated_resources-IsOwned_example =
    build_dedicated_resources-IsOwned reconciler lookups infra 0 shop shop_resources
      shop_resources_made

-- One that shares a load balancer, and two that do not.
abbrev ingresses : List Ingress
ingresses =
    record shop { annotations = ("ingress.dolphin.io/loadbalancer-mode", "shared") ∷ [] }
    ∷ (shop ∷ (record shop { class_name = some "other" } ∷ []))

abbrev shared_ingresses : List Ingress
shared_ingresses = keep (is_shared reconciler lookups infra 0 none) ingresses

shared_ingresses_ends :
    map (λ ing. ing.annotations) shared_ingresses
    ≡ (("ingress.dolphin.io/loadbalancer-mode", "shared") ∷ []) ∷ []
unfolding is_dolphin_managed_ingress is_effective_loadbalancer_mode_dedicated
shared_ingresses_ends = refl

build_shared_resources-keep_example :
    build_shared_resources reconciler lookups infra 0 none ingresses ≡ (
      if any has_no_class ingresses
      then none
      else build_shared_resources reconciler lookups infra 0 none shared_ingresses)
build_shared_resources-keep_example =
    build_shared_resources-keep reconciler lookups infra 0 none ingresses

ingresses_have_classes : any has_no_class ingresses ≡ false
unfolding ingress_class_name
ingresses_have_classes = refl

classless_panics :
    build_shared_resources reconciler lookups infra 0 none
      (record shop { class_name = none; deleted = true } ∷ ingresses)
    ≡ none
unfolding build_shared_resources
classless_panics = refl

-- The Ingress of the first case of TestReconcile.
abbrev test_ingress : Ingress
test_ingress = record shop {
  name = "test";
  namespace = "test";
  annotations = [];
  default_backend = some (some (record { name = "test"; port_name = ""; port_number = 8080 }));
  rules = [];
  tls = [];
}

abbrev test_resources : TranslatedIngress
test_resources = made_of (build_dedicated_resources reconciler lookups infra 0 test_ingress)

test_resources_names :
    (test_resources.0.name ≡ "dolphin-ingress-test-test")
    × (test_resources.1.0.name ≡ "dolphin-ingress-test")
unfolding build_dedicated_resources infra text_le
test_resources_names = (refl, refl)
