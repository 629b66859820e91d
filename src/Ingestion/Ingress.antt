-- ===== src/Ingestion/Ingress.antt =====
-- pkg/model/ingestion/ingress.go: the listeners of an Ingress. `none` is a panic.
pub mod ByHost
pub mod Laws
pub mod Passthrough
pub mod Sources
use controller_powered_by_di.Base.{
  ◌<>◌, ℕ, String, Bool, true, false, ◌&&◌, not, Option, none, some, List, [], ◌∷◌, ◌++◌, ◌==◌,
  ◌>>=◌, if◌then◌else◌, map, gather, fold, any, is_nil, is_some, deref_or, num_eq,
}
use controller_powered_by_di.Base.Sort.{sort_texts}
use controller_powered_by_di.Base.Assoc.{find, upsert}
use controller_powered_by_di.Api.{
  Ingress, IngressRule, IngressTls, HttpIngressPath, IngressServiceBackend, PathType,
}
use controller_powered_by_di.Model.{
  FullyQualifiedResource, HttpListener, TlsListener, TlsRoute, TlsSecret, HttpRoute, Backend,
  Service, Timeout, StringMatch, no_match,
}
use controller_powered_by_di.Ingestion.Http.{zero_route}
use controller_powered_by_di.Ingestion.Annotations.{
  Lookups, get_annotation_request_timeout, get_annotation_service_type,
  get_annotation_secure_node_port, get_annotation_insecure_node_port,
  get_annotation_force_https_enabled,
}

-- `cmp.Equal`
resource_eq : FullyQualifiedResource → FullyQualifiedResource → Bool
resource_eq a b =
    ((a.name == b.name) && (a.namespace == b.namespace))
    && (((a.group == b.group) && (a.version == b.version))
        && ((a.kind == b.kind) && (a.uid == b.uid)))

-- `model.AddSource`
unfoldable pub add_source :
    List FullyQualifiedResource → FullyQualifiedResource → List FullyQualifiedResource
unfolding resource_eq
add_source sources source =
    if any (λ s. resource_eq s source) sources then sources else sources ++ source ∷ []

abbrev pub ingress_source : Ingress → FullyQualifiedResource
ingress_source ing = record {
  name = ing.name;
  namespace = ing.namespace;
  group = "";
  version = "v1";
  kind = "Ingress";
  uid = ing.uid;
}

-- The zero values of the listeners.
abbrev zero_listener : HttpListener
zero_listener = record {
  name = "";
  sources = [];
  address = "";
  port = 0;
  hostname = "";
  tls = none;
  routes = [];
  service = none;
  infrastructure = none;
  force_http_to_https_redirect = false;
}

abbrev backend_of : String → IngressServiceBackend → Backend
backend_of namespace service = record {
  name = service.name;
  namespace = namespace;
  port = some (record { port = service.port_number; name = service.port_name });
  weight = none;
  tls = none;
}

-- `appendValuesInKeyOrder`
unfoldable pub append_values_in_key_order : {A : Type 0} → List (String × A) → List A → List A
unfolding sort_texts find
append_values_in_key_order m xs =
    xs
    ++ gather (λ k. elim (find (λ a b. a == b) k m) [ none ↦ [] | some v ↦ v ∷ [] ])
        (sort_texts (map (λ e. e.0) m))

abbrev listener_name : Ingress → String → String
listener_name ing host = "ing-" <> (ing.name <> ("-" <> (ing.namespace <> ("-" <> host))))

abbrev path_of : PathType → String → StringMatch
path_of PathType.exact p = record no_match { exact = p }
path_of PathType.prefix p = record no_match { prefix = p }
path_of PathType.implementation_specific p = record no_match { regex = p }
path_of (PathType.other _) p = no_match

module _ (lookups : Lookups) (ing : Ingress) where
  -- An annotation that is not valid leaves the port open.
  unfoldable pub get_service : Option Service
  unfolding get_annotation_service_type get_annotation_secure_node_port
      get_annotation_insecure_node_port
  get_service =
      if get_annotation_service_type lookups ing.annotations == "NodePort"
      then some (record {
        type = "NodePort";
        insecure_node_port =
            deref_or (get_annotation_insecure_node_port lookups ing.annotations) none;
        secure_node_port = deref_or (get_annotation_secure_node_port lookups ing.annotations) none;
      })
      else none

  -- The annotation, where it is valid, and else the default; zero is none.
  timeout_for : ℕ → Timeout
  unfolding get_annotation_request_timeout
  timeout_for default_timeout =
      let base = if num_eq default_timeout 0 then none else some default_timeout in
      record {
        request = elim (get_annotation_request_timeout lookups ing.annotations) [
          | none ↦ base
          | some none ↦ base
          | some (some v) ↦ some v
        ];
        backend = none;
      }

  -- The service of the default backend is read through its pointer.
  default_listener : Timeout → ℕ → Option (List (String × HttpListener))
  unfolding get_service add_source
  default_listener timeout port = elim ing.default_backend [
    | none ↦ some []
    | some backend ↦ do
      service ← backend
      some (
          (
            "*",
            record zero_listener {
              hostname = "*";
              routes =
                  record zero_route {
                    backends = backend_of ing.namespace service ∷ [];
                    timeout = timeout;
                  }
                  ∷ [];
              port = port;
              service = get_service;
              sources = add_source [] (ingress_source ing);
            },
          )
          ∷ [])
  ]

  path_route : Timeout → HttpIngressPath → Option HttpRoute
  path_route timeout p = do
    type ← p.path_type
    service ← p.service
    some (record zero_route {
      timeout = timeout;
      path_match = path_of type p.path;
      backends = backend_of ing.namespace service ∷ [];
    })

  add_paths : Timeout → List HttpIngressPath → HttpListener → Option HttpListener
  unfolding path_route get_service
  add_paths timeout [] l = some l
  add_paths timeout (p ∷ paths) l = do
    r ← path_route timeout p
    add_paths timeout paths (record l { routes = l.routes ++ r ∷ []; service = get_service })

  abbrev rule_host : IngressRule → String
  rule_host rule = if rule.host == "" then "*" else rule.host

  rule_listener : ℕ → String → List (String × HttpListener) → HttpListener
  unfolding find add_source
  rule_listener port host m =
      let found = find (λ a b. a == b) host m in
      let l = deref_or found zero_listener in
      record l {
        port = port;
        sources = add_source l.sources (ingress_source ing);
        name = if is_some found then l.name else listener_name ing host;
        hostname = host;
      }

  -- A rule without paths is skipped.
  add_rules :
      Timeout
      → ℕ
      → List IngressRule
      → List (String × HttpListener)
      → Option (List (String × HttpListener))
  unfolding rule_listener add_paths upsert
  add_rules timeout port [] m = some m
  add_rules timeout port (rule ∷ rules) m = elim rule.http [
    | none ↦ add_rules timeout port rules m
    | some paths ↦ do
      l ← add_paths timeout paths (rule_listener port (rule_host rule) m)
      add_rules timeout port rules (upsert (λ a b. a == b) (rule_host rule) l m)
  ]

  unfoldable pub insecure_listeners : Timeout → ℕ → Option (List (String × HttpListener))
  unfolding default_listener add_rules
  insecure_listeners timeout port = do
    m ← default_listener timeout port
    add_rules timeout port ing.rules m

  -- The certificate that a listener is given, if any.
  tls_for : String → String → String → Option (List TlsSecret)
  tls_for default_namespace default_name secret_name =
      if not (secret_name == "")
      then some (record { name = secret_name; namespace = ing.namespace } ∷ [])
      else if not (default_namespace == "") && not (default_name == "")
      then some (record { name = default_name; namespace = default_namespace } ∷ [])
      else none

  -- The annotation decides where it is set.
  force_https : Bool → Bool
  unfolding get_annotation_force_https_enabled
  force_https enforced =
      deref_or (get_annotation_force_https_enabled lookups ing.annotations) enforced

  with_tls : Option (List TlsSecret) → HttpListener → HttpListener
  with_tls none l = l
  with_tls (some tls) l = record l { tls = some tls }

  -- The listener that a TLS host starts from, in the order of the lookups.
  base_listener :
      String → List (String × HttpListener) → List (String × HttpListener) → Option HttpListener
  unfolding find
  base_listener host insecure secure = elim (find (λ a b. a == b) host secure) [
    | some l ↦ some l
    | none ↦ elim (find (λ a b. a == b) host insecure) [
      | some l ↦ some l
      | none ↦ find (λ a b. a == b) "*" insecure
    ]
  ]

  -- A copy of the listener of the star, where there is one, replaces the listener of the host.
  add_tls_host :
      Option (List TlsSecret)
      → Bool
      → ℕ
      → List (String × HttpListener)
      → String
      → List (String × HttpListener)
      → List (String × HttpListener)
  unfolding base_listener with_tls get_service find upsert
  add_tls_host tls force port insecure host secure = elim (base_listener host insecure secure) [
    | none ↦ secure
    | some l ↦
        let with_host =
          upsert (λ a b. a == b) host
            (record (with_tls tls l) {
              port = port;
              hostname = host;
              service = get_service;
              force_http_to_https_redirect = force;
            })
            secure in
        elim (find (λ a b. a == b) "*" insecure) [
          | none ↦ with_host
          | some d ↦
              upsert (λ a b. a == b) host (record (with_tls tls d) { hostname = host; port = port })
                with_host
        ]
  ]

  unfoldable pub secure_listeners :
      String → String → Bool → ℕ → List (String × HttpListener) → List (String × HttpListener)
  unfolding add_tls_host tls_for force_https
  secure_listeners default_namespace default_name enforced port insecure =
      fold
        (λ config.
          fold
            (add_tls_host (tls_for default_namespace default_name config.secret_name)
              (force_https enforced) port insecure)
            config.hosts)
        ing.tls []

  unfoldable pub ingress : String → String → Bool → ℕ → ℕ → ℕ → Option (List HttpListener)
  unfolding insecure_listeners secure_listeners timeout_for append_values_in_key_order
  ingress default_namespace default_name enforced insecure_port secure_port default_timeout = do
    insecure ← insecure_listeners (timeout_for default_timeout) insecure_port
    some (
        append_values_in_key_order
          (secure_listeners default_namespace default_name enforced secure_port insecure)
          (append_values_in_key_order insecure []))
