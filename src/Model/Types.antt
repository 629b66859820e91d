-- ===== src/Model/Types.antt =====
-- pkg/model/model.go: the records of the model, and the accessors of its listeners.
use controller_powered_by_di.Base.{ℕ, String, Bool, Option, none, some, List, ◌++◌, map}

pub record FullyQualifiedResource : Type 0 where
  pub name : String
  pub namespace : String
  pub group : String
  pub version : String
  pub kind : String
  pub uid : String

pub record TlsSecret : Type 0 where
  pub name : String
  pub namespace : String

pub record Service : Type 0 where
  pub type : String
  pub insecure_node_port : Option ℕ
  pub secure_node_port : Option ℕ

pub record StringMatch : Type 0 where
  pub prefix : String
  pub exact : String
  pub regex : String

pub record KeyValueMatch : Type 0 where
  pub key : String
  pub match : StringMatch

pub record Header : Type 0 where
  pub name : String
  pub value : String

pub record HttpHeaderFilter : Type 0 where
  pub headers_to_add : List Header
  pub headers_to_set : List Header
  pub headers_to_remove : List String

pub record BackendHttpFilter : Type 0 where
  pub name : String
  pub request_header_filter : Option HttpHeaderFilter
  pub response_header_modifier : Option HttpHeaderFilter

pub record DirectResponse : Type 0 where
  pub status_code : ℕ
  pub body : String

pub record BackendPort : Type 0 where
  pub port : ℕ
  pub name : String

pub record BackendTls : Type 0 where
  pub sni : String
  pub validation_secret : String

pub record Backend : Type 0 where
  pub name : String
  pub namespace : String
  pub port : Option BackendPort
  pub weight : Option ℕ
  pub tls : Option BackendTls

pub record HttpRequestMirror : Type 0 where
  pub backend : Option Backend

pub record HttpRequestRedirectFilter : Type 0 where
  pub scheme : Option String
  pub hostname : Option String
  pub path : Option StringMatch
  pub port : Option ℕ
  pub status_code : Option ℕ

pub record HttpUrlRewriteFilter : Type 0 where
  pub host_name : Option String
  pub path : Option StringMatch

-- A duration is its number of nanoseconds.
pub record Timeout : Type 0 where
  pub request : Option ℕ
  pub backend : Option ℕ

pub record HttpRoute : Type 0 where
  pub name : String
  pub hostnames : List String
  pub path_match : StringMatch
  pub headers_match : List KeyValueMatch
  pub query_params_match : List KeyValueMatch
  pub method : Option String
  pub backends : List Backend
  pub backend_http_filters : List BackendHttpFilter
  pub direct_response : Option DirectResponse
  pub response_header_match : Option HttpHeaderFilter
  pub response_header_modifier : Option HttpHeaderFilter
  pub request_header_filter : Option HttpHeaderFilter
  pub request_redirect : Option HttpRequestRedirectFilter
  pub rewrite : Option HttpUrlRewriteFilter
  pub request_mirrors : List HttpRequestMirror
  pub is_grpc : Bool
  pub timeout : Timeout

-- A Go map that may be nil.
pub record Infrastructure : Type 0 where
  pub labels : Option (List (String × String))
  pub annotations : Option (List (String × String))

pub record HttpListener : Type 0 where
  pub name : String
  pub sources : List FullyQualifiedResource
  pub address : String
  pub port : ℕ
  pub hostname : String
  -- `none` is nil, of a listener without TLS.
  pub tls : Option (List TlsSecret)
  pub routes : List HttpRoute
  pub service : Option Service
  pub infrastructure : Option Infrastructure
  pub force_http_to_https_redirect : Bool

pub record TlsRoute : Type 0 where
  pub name : String
  pub hostnames : List String
  pub backends : List Backend

pub record TlsListener : Type 0 where
  pub name : String
  pub sources : List FullyQualifiedResource
  pub address : String
  pub port : ℕ
  pub hostname : String
  pub routes : List TlsRoute
  pub service : Option Service
  pub infrastructure : Option Infrastructure

pub record TcpRoute : Type 0 where
  pub backends : List Backend

pub record TcpListener : Type 0 where
  pub name : String
  pub port : ℕ
  pub sources : List FullyQualifiedResource
  pub routes : List TcpRoute
  pub infrastructure : Option Infrastructure

pub record UdpRoute : Type 0 where
  pub backends : List Backend

pub record UdpListener : Type 0 where
  pub name : String
  pub port : ℕ
  pub sources : List FullyQualifiedResource
  pub routes : List UdpRoute
  pub infrastructure : Option Infrastructure

pub record Model : Type 0 where
  pub http : List HttpListener
  pub tls : List TlsListener
  pub tcp : List TcpListener
  pub udp : List UdpListener

-- The two implementations of the interface `Listener`.
pub data Listener : Type 0 where
  of_http : HttpListener → Listener
  of_tls : TlsListener → Listener

unfoldable pub get_sources : Listener → List FullyQualifiedResource
get_sources (of_http h) = h.sources
get_sources (of_tls t) = t.sources

unfoldable pub get_port : Listener → ℕ
get_port (of_http h) = h.port
get_port (of_tls t) = t.port

abbrev infrastructure_annotations : Option Infrastructure → Option (List (String × String))
infrastructure_annotations none = none
infrastructure_annotations (some i) = i.annotations

abbrev infrastructure_labels : Option Infrastructure → Option (List (String × String))
infrastructure_labels none = none
infrastructure_labels (some i) = i.labels

unfoldable pub get_annotations : Listener → Option (List (String × String))
get_annotations (of_http h) = infrastructure_annotations h.infrastructure
get_annotations (of_tls t) = infrastructure_annotations t.infrastructure

unfoldable pub get_labels : Listener → Option (List (String × String))
get_labels (of_http h) = infrastructure_labels h.infrastructure
get_labels (of_tls t) = infrastructure_labels t.infrastructure

-- The TCP and UDP listeners are not among them.
unfoldable pub get_listeners : Model → List Listener
get_listeners m = map of_http m.http ++ map of_tls m.tls

-- A match with no text, and a route with every field at its zero value.
abbrev pub no_match : StringMatch
no_match = record { prefix = ""; exact = ""; regex = "" }
