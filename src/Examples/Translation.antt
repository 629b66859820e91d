-- ===== src/Examples/Translation.antt =====
-- Witnesses on the translation to Envoy, with functions in place of the infrastructure library.
use mathlib.Core.List.{Perm}
use controller_powered_by_di.Base.{
  ℕ, ◌<◌, ◌≤◌, ◌^◌, String, true, false, ◌||◌, none, some, List, [], ◌∷◌, ◌≡◌, refl, ◌∙◌, ap,
  contains, map, gather, keep, any, num_eq, All, if◌then◌else◌, ltb, Bool-cases, inl, inr, eq_iff,
  ◌==◌, deref_or,
}
use controller_powered_by_di.Base.Sort.{sort_texts, any-sort_texts, IsAscending}
use controller_powered_by_di.Base.Strings.{byte_len}
use controller_powered_by_di.Base.NumberSets.{IsStrict}
use controller_powered_by_di.Model
use controller_powered_by_di.Model.{
  HttpRoute, HttpListener, Backend, FullyQualifiedResource, no_match,
}
use controller_powered_by_di.Model.Names.{shorten}
use controller_powered_by_di.Model.Names.Bounds.{shorten-bound}
use controller_powered_by_di.Ingestion.Http.{zero_route}
use controller_powered_by_di.Translation.Infra.{Infra, IsInfra}
use controller_powered_by_di.Translation.Settings.{DefaultTranslator}
use controller_powered_by_di.Translation.Envoy.{Route, RouteConfiguration, VirtualHost}
use controller_powered_by_di.Translation.BackendPorts.{get_namespace_name_ports_map_for_http}
use controller_powered_by_di.Translation.BackendPorts.Members.{
  has_port, is_of_route, get_namespace_name_ports_map_for_http-has_port,
}
use controller_powered_by_di.Translation.Clusters.{Cluster, get_clusters}
use controller_powered_by_di.Translation.Clusters.Members.{HasCluster, get_clusters-IsAscending}
use controller_powered_by_di.Translation.VirtualHost.{
  VirtualHostParameter, routes_for, new_virtual_host,
}
use controller_powered_by_di.Translation.VirtualHost.Order.{
  new_virtual_host-order, IsByRank, is_level,
}
use controller_powered_by_di.Translation.VirtualHost.Total.{IsServable, routes_for-total}
use controller_powered_by_di.Translation.RouteConfigs.{get_envoy_http_route_configuration}
use controller_powered_by_di.Translation.RouteConfigs.References.{
  configuration_clusters, get_envoy_http_route_configuration-HasCluster,
}
use controller_powered_by_di.Translation.Translator.{all_ports, get_services}
use controller_powered_by_di.Translation.Translator.Ports.{gives, get_services-IsStrict}
use controller_powered_by_di.Translation.Gateway.{service_port, get_service}
use controller_powered_by_di.Translation.Gateway.Ports.{
  IsUniquelyNamed, get_service-IsUniquelyNamed,
}

-- Every text once.
dedupe : List String → List String
dedupe [] = []
dedupe (x ∷ xs) = let rest = dedupe xs in if contains rest x then rest else x ∷ rest

contains-dedupe : (xs : List String) (a : String) → contains (dedupe xs) a ≡ contains xs a
unfolding dedupe
contains-dedupe [] a = refl
contains-dedupe (x ∷ xs) a = elim (Bool-cases (contains (dedupe xs) x)) [
  | inr new ↦ rw new (ap (λ b. (x == a) || b) (contains-dedupe xs a))
  | inl old ↦ rw old (elim (Bool-cases (x == a)) [
    | inl same ↦ rw same (ap (λ y. contains (dedupe xs) y) (sym_text x a same) ∙ old)
    | inr other ↦ rw other (contains-dedupe xs a)
  ])
]
  where
    sym_text : (x a : String) → x == a ≡ true → a ≡ x
    sym_text x a same = cc ((eq_iff x a).0 same)

unfoldable pub infra : Infra
unfolding dedupe sort_texts
infra = record {
  int_max = λ a b. if ltb a b then b else a;
  unique = dedupe;
  sorted_uniqs = λ xs. sort_texts (dedupe xs);
  sorted_unique = λ xs. sort_texts (dedupe xs);
  use_original_source_address_label = "io.example/use-original-source-address";
}

infra-IsInfra : IsInfra infra
unfolding infra
infra-IsInfra = record {
  contains-unique = contains-dedupe;
  contains-sorted_uniqs = λ xs a. any-sort_texts (λ x. x == a) (dedupe xs) ∙ contains-dedupe xs a;
}

abbrev backend : String → ℕ → Backend
backend name port = record {
  name = name;
  namespace = "apps";
  port = some (record { port = port; name = "" });
  weight = none;
  tls = none;
}

-- Two routes with a prefix, and between them one with an exact path.
abbrev prefix_route : String → HttpRoute
prefix_route p = record zero_route {
  hostnames = "shop.example.com" ∷ [];
  path_match = record { prefix = p; exact = ""; regex = "" };
  backends = backend "shop" 80 ∷ [];
}

abbrev exact_route : HttpRoute
exact_route = record zero_route {
  hostnames = "shop.example.com" ∷ [];
  path_match = record { prefix = ""; exact = "/cart"; regex = "" };
  backends = backend "cart" 8080 ∷ [];
  request_mirrors = record { backend = some (backend "audit" 9000) } ∷ [];
}

abbrev shop_routes : List HttpRoute
shop_routes = prefix_route "/" ∷ (exact_route ∷ (prefix_route "/img" ∷ []))

abbrev shop_listener : HttpListener
shop_listener = record {
  name = "web";
  sources = [];
  address = "*";
  port = 80;
  hostname = "*";
  tls = none;
  routes = shop_routes;
  service = none;
  infrastructure = none;
  force_http_to_https_redirect = false;
}

abbrev shop_model : Model.Model
shop_model = record { http = shop_listener ∷ []; tls = []; tcp = []; udp = [] }

abbrev pub translator : DefaultTranslator
translator = record {
  name = "gw";
  namespace = "apps";
  secrets_namespace = "secrets";
  enforce_https = false;
  use_proxy_protocol = false;
  host_name_suffix_match = true;
  idle_timeout_seconds = 60;
  ipv4_enabled = true;
  ipv6_enabled = false;
}

abbrev configurations : List RouteConfiguration
configurations = deref_or (get_envoy_http_route_configuration infra translator shop_model) []

configurations_made :
    get_envoy_http_route_configuration infra translator shop_model ≡ some configurations
unfolding get_envoy_http_route_configuration infra
configurations_made = refl

configurations_name :
    gather configuration_clusters configurations
    ≡ "apps:cart:8080" ∷ ("apps:audit:9000" ∷ ("apps:shop:80" ∷ ("apps:shop:80" ∷ [])))
unfolding get_envoy_http_route_configuration infra
configurations_name = refl

get_envoy_http_route_configuration-HasCluster_example :
    All
      (HasCluster (get_clusters infra "secrets" 60 shop_model))
      (gather configuration_clusters configurations)
get_envoy_http_route_configuration-HasCluster_example =
    get_envoy_http_route_configuration-HasCluster infra infra-IsInfra "secrets" 60 shop_model
      translator configurations configurations_made

get_namespace_name_ports_map_for_http-has_port_example :
    has_port "apps" "audit" "9000" (get_namespace_name_ports_map_for_http infra shop_model)
    ≡ any (λ l. any (is_of_route "apps" "audit" "9000") l.routes) shop_model.http
get_namespace_name_ports_map_for_http-has_port_example =
    get_namespace_name_ports_map_for_http-has_port infra infra-IsInfra "apps" "audit" "9000"
      shop_model

get_clusters-IsAscending_example :
    (cs : List Cluster) × (get_clusters infra "secrets" 60 shop_model ≡ map some cs)
    × IsAscending (map (λ c. c.name) cs)
get_clusters-IsAscending_example = get_clusters-IsAscending infra "secrets" 60 shop_model

abbrev parameter : VirtualHostParameter
parameter = record {
  host_names = "shop.example.com" ∷ [];
  https_redirect = false;
  host_name_suffix_match = true;
  listener_port = 80;
}

abbrev built : List Route
built =
    gather (λ o. elim o [ none ↦ [] | some r ↦ r ∷ [] ])
      (deref_or (routes_for shop_routes parameter) [])

built_made : routes_for shop_routes parameter ≡ some (map some built)
unfolding routes_for
built_made = refl

new_virtual_host-order_example :
    (vh : VirtualHost) × (sorted : List Route) × (new_virtual_host infra shop_routes parameter
      ≡ some vh)
    × (vh.routes ≡ map some sorted)
    × Perm sorted built
    × IsByRank infra sorted
    × ((c : Route) → keep (is_level infra c) sorted ≡ keep (is_level infra c) built)
new_virtual_host-order_example =
    new_virtual_host-order infra shop_routes parameter "shop.example.com" [] refl built built_made

shop_routes-IsServable : All IsServable shop_routes
shop_routes-IsServable = (
  record { backends = (refl, tt); mirrors = tt; served = refl },
  (
    record { backends = (refl, tt); mirrors = (refl, tt); served = refl },
    (record { backends = (refl, tt); mirrors = tt; served = refl }, tt),
  ),
)

routes_for-total_example :
    (made : List Route) × (routes_for shop_routes parameter ≡ some (map some made))
routes_for-total_example = routes_for-total shop_routes parameter shop_routes-IsServable

-- A port beyond 16 bits is cut.
abbrev wide_model : Model.Model
wide_model = record shop_model {
  http =
      shop_listener
      ∷ (record shop_listener { port = 65616 } ∷ (record shop_listener { port = 443 } ∷ []));
}

wide_ports :
    get_services translator wide_model
    ≡ record { name = "gw"; namespace = "apps"; ports = 80 ∷ (443 ∷ []) } ∷ []
unfolding get_services
wide_ports = refl

get_services-IsStrict_example :
    (ports : List ℕ) × (get_services translator wide_model
      ≡ record { name = "gw"; namespace = "apps"; ports = ports } ∷ [])
    × IsStrict ports
    × All (λ p. p < 2 ^ 16) ports
    × ((p : ℕ) → any (num_eq p) ports ≡ any (gives p) (all_ports wide_model))
get_services-IsStrict_example = get_services-IsStrict translator wide_model

abbrev digest : String → String
digest s = "0123456789abcdef0123456789abcdef0123456789abcdef0123456789abcdef"

abbrev long_name : String
long_name = "a-gateway-with-a-name-that-is-longer-than-the-names-of-a-service-may-be"

shortened :
    shorten digest long_name ≡ "a-gateway-with-a-name-that-is-longer-than-the-names--gh2k456789"
unfolding shorten
shortened = refl

shorten-bound_example :
    (byte_len (shorten digest long_name) ≤ 63)
    × (shorten digest (shorten digest long_name) ≡ shorten digest long_name)
shorten-bound_example = shorten-bound digest long_name

abbrev gateway : FullyQualifiedResource
gateway = record {
  name = "gw";
  namespace = "apps";
  group = "";
  version = "v1";
  kind = "Gateway";
  uid = "1";
}

get_service-IsUniquelyNamed_example :
    let service = get_service digest gateway (443 ∷ (80 ∷ (443 ∷ []))) none none none in
    IsUniquelyNamed service.ports
    × ((numbers : List ℕ) × (service.ports ≡ map service_port numbers)
        × IsStrict numbers
        × ((p : ℕ) → any (num_eq p) numbers ≡ any (num_eq p) (443 ∷ (80 ∷ (443 ∷ [])))))
get_service-IsUniquelyNamed_example =
    get_service-IsUniquelyNamed digest gateway (443 ∷ (80 ∷ (443 ∷ []))) none none none
