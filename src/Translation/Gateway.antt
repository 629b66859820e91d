-- ===== src/Translation/Gateway.antt =====
-- pkg/model/translation/gateway-api/translator.go: the configuration, the service and the endpoints
-- of a Gateway.
pub mod Ports
use controller_powered_by_di.Base.{
  ◌<>◌, ℕ, ◌%◌, ◌^◌, String, Bool, true, false, Option, none, some, List, [], ◌∷◌, ◌++◌, ◌==◌, ◌&&◌,
  ◌⊎◌, inl, inr, ◌>>=◌, if◌then◌else◌, map, is_nil, fold, any, num_eq, ltb,
}
use controller_powered_by_di.Base.Decimal.{itoa}
use controller_powered_by_di.Base.StableSort.{stable_sort}
use controller_powered_by_di.Base.NumberSets.{insert_new}
use controller_powered_by_di.Base.Assoc.{upsert}
use controller_powered_by_di.Model
use controller_powered_by_di.Model.{FullyQualifiedResource, Infrastructure}
use controller_powered_by_di.Model.Names.{shorten}
use controller_powered_by_di.Translation.Infra.{Infra}
use controller_powered_by_di.Translation.Settings.{DefaultTranslator}
use controller_powered_by_di.Translation.Translator.{DolphinEnvoyConfig, OwnerReference, translate}

-- The objects of the API of Kubernetes. A port of 32 bits with a sign is its residue.
pub record ServicePort : Type 0 where
  pub name : String
  pub port : ℕ
  pub target_port : ℕ
  pub protocol : String

abbrev pub Labels : Type 0
Labels = Option (List (String × String))

pub record KubeService : Type 0 where
  pub name : String
  pub namespace : String
  pub labels : Labels
  pub annotations : Labels
  pub owner : OwnerReference
  pub type : String
  pub ports : List ServicePort

pub record Endpoints : Type 0 where
  pub name : String
  pub namespace : String
  pub labels : Labels
  pub owner : OwnerReference
  pub ip : String
  pub port : ℕ

-- The class's configuration, by the type of its service.
pub record GatewayClassConfig : Type 0 where
  pub service_type : String

pub record GatewayTranslator : Type 0 where
  pub secret_namespace : String
  pub idle_timeout_seconds : ℕ
  pub enable_ipv4 : Bool
  pub enable_ipv6 : Bool

-- `none` is a nil map.
unfoldable pub merge_map : Labels → Labels → Labels
unfolding upsert
merge_map none right = right
merge_map (some left) none = some left
merge_map (some left) (some right) = some (fold (λ (k, v). upsert (λ a b. a == b) k v) right left)

unfoldable pub sorted_ports : List ℕ → List ℕ
unfolding insert_new stable_sort
sorted_ports ports = stable_sort ltb (fold insert_new ports [])

unfoldable pub service_port : ℕ → ServicePort
unfolding itoa
service_port p = record {
  name = "port-" <> itoa p;
  port = p % 2 ^ 32;
  target_port = p % 2 ^ 32;
  protocol = "TCP";
}

unfoldable pub to_service_type : Option GatewayClassConfig → String
to_service_type none = "LoadBalancer"
to_service_type (some cfg) = if cfg.service_type == "NodePort" then "NodePort" else "LoadBalancer"

abbrev owner_of : FullyQualifiedResource → OwnerReference
owner_of r = record { kind = r.kind; name = r.name; uid = r.uid }

module _ (hash : String → String) where
  owning_label : FullyQualifiedResource → List (String × String)
  unfolding shorten
  owning_label r = ("io.dolphin.gateway/owning-gateway", shorten hash r.name) ∷ []

  unfoldable pub get_service :
      FullyQualifiedResource → List ℕ → Labels → Labels → Option GatewayClassConfig → KubeService
  unfolding shorten merge_map owning_label to_service_type sorted_ports service_port
  get_service r ports labels annotations cfg = record {
    name = shorten hash ("dolphin-gateway-" <> r.name);
    namespace = r.namespace;
    labels = merge_map (some (owning_label r)) labels;
    annotations = annotations;
    owner = owner_of r;
    type = to_service_type cfg;
    ports = map service_port (sorted_ports ports);
  }

  unfoldable pub get_endpoints : FullyQualifiedResource → Endpoints
  unfolding shorten owning_label
  get_endpoints r = record {
    name = shorten hash ("dolphin-gateway-" <> r.name);
    namespace = r.namespace;
    labels = some (owning_label r);
    owner = owner_of r;
    ip = "192.192.192.192";
    port = 9999;
  }

-- The variables that `addListener` changes.
pub record Gathered : Type 0 where
  pub source : Option FullyQualifiedResource
  pub ports : List ℕ
  pub labels : Labels
  pub annotations : Labels

first_source :
    Option FullyQualifiedResource → List FullyQualifiedResource → Option FullyQualifiedResource
first_source (some source) sources = some source
first_source none [] = none
first_source none (s ∷ sources) = if s.name == "" then none else some s

unfoldable pub add_listener :
    List FullyQualifiedResource → ℕ → Option Infrastructure → Gathered → Gathered
unfolding first_source merge_map
add_listener sources port infrastructure g =
    let g' = record g { source = first_source g.source sources; ports = g.ports ++ port ∷ [] } in
    elim infrastructure [
      | none ↦ g'
      | some i ↦ record g' {
        labels = merge_map g.labels i.labels;
        annotations = merge_map g.annotations i.annotations;
      }
    ]

unfoldable pub gathered : Model.Model → Gathered
unfolding add_listener
gathered m =
    fold (λ l. add_listener l.sources l.port l.infrastructure) m.udp
      (fold (λ l. add_listener l.sources l.port l.infrastructure) m.tcp
        (fold (λ l. add_listener l.sources l.port l.infrastructure) m.tls
          (fold (λ l. add_listener l.sources l.port l.infrastructure) m.http
            (record { source = none; ports = []; labels = some []; annotations = some [] }))))

-- A result that is not an error.
abbrev pub Translated : Type 0
Translated = Option DolphinEnvoyConfig × (KubeService × Endpoints)

first_config : List (Option GatewayClassConfig) → Option GatewayClassConfig
first_config [] = none
first_config (cfg ∷ cfgs) = cfg

module _ (infra : Infra) (hash : String → String) (hops : ℕ) (t : GatewayTranslator) where
  abbrev default_translator : FullyQualifiedResource → DefaultTranslator
  default_translator source = record {
    name = "dolphin-gateway-" <> source.name;
    namespace = source.namespace;
    secrets_namespace = t.secret_namespace;
    enforce_https = false;
    use_proxy_protocol = false;
    host_name_suffix_match = true;
    idle_timeout_seconds = t.idle_timeout_seconds;
    ipv4_enabled = t.enable_ipv4;
    ipv6_enabled = t.enable_ipv6;
  }

  -- `none` is a panic, and `inl` an error.
  translate_source :
      Model.Model
      → Gathered
      → FullyQualifiedResource
      → Option GatewayClassConfig
      → Option Translated
  unfolding translate get_service get_endpoints
  translate_source m g source cfg =
      let service = get_service hash source g.ports g.labels g.annotations cfg in
      let endpoints = get_endpoints hash source in
      if is_nil m.http && (is_nil m.tls && is_nil m.tcp)
      then some (none, (service, endpoints))
      else (do
        config ← translate infra hops (default_translator source) m
        some (
          some (record config { owner_references = owner_of source ∷ [] }),
          (service, endpoints),
        ))

  unfoldable pub translate_gateway :
      Option Model.Model → List (Option GatewayClassConfig) → Option (String ⊎ Translated)
  unfolding gathered translate_source first_config
  translate_gateway none cfgs = some (inl "model is nil")
  translate_gateway (some m) cfgs =
      let g = gathered m in
      elim g.source [
        | none ↦ some (inl "model source can't be empty")
        | some source ↦ do
          result ← translate_source m g source (first_config cfgs)
          some (inr result)
      ]
