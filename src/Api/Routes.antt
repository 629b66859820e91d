-- ===== src/Api/Routes.antt =====
-- The five kinds of routes.
use controller_powered_by_di.Base.{ℕ, String, Option, List}
use controller_powered_by_di.Api.Refs.{
  ParentReference, BackendObjectReference, BackendRef, RouteParentStatus,
}

pub record HttpHeader : Type 0 where
  pub name : String
  pub value : String

pub record HttpHeaderFilter : Type 0 where
  pub set : List HttpHeader
  pub add : List HttpHeader
  pub remove : List String

pub record HttpRequestMirrorFilter : Type 0 where
  pub backend_ref : BackendObjectReference

pub record HttpExternalAuthFilter : Type 0 where
  pub backend_ref : BackendObjectReference

pub data PathModifierType : Type 0 where
  full_path prefix_match : PathModifierType
  other : String → PathModifierType

pub record HttpPathModifier : Type 0 where
  pub type : PathModifierType
  pub replace_full_path : Option String
  pub replace_prefix_match : Option String

pub record HttpRequestRedirectFilter : Type 0 where
  pub scheme : Option String
  pub hostname : Option String
  pub path : Option HttpPathModifier
  pub port : Option ℕ
  pub status_code : Option ℕ

pub record HttpUrlRewriteFilter : Type 0 where
  pub hostname : Option String
  pub path : Option HttpPathModifier

pub data HttpRouteFilterType : Type 0 where
  request_header_modifier response_header_modifier request_redirect url_rewrite :
      HttpRouteFilterType
  request_mirror external_auth : HttpRouteFilterType
  other : String → HttpRouteFilterType

pub record HttpRouteFilter : Type 0 where
  pub type : HttpRouteFilterType
  pub request_header_modifier : Option HttpHeaderFilter
  pub response_header_modifier : Option HttpHeaderFilter
  pub request_mirror : Option HttpRequestMirrorFilter
  pub request_redirect : Option HttpRequestRedirectFilter
  pub url_rewrite : Option HttpUrlRewriteFilter
  pub external_auth : Option HttpExternalAuthFilter

pub data PathMatchType : Type 0 where
  exact path_prefix regular_expression : PathMatchType
  other : String → PathMatchType

pub record HttpPathMatch : Type 0 where
  pub type : Option PathMatchType
  pub value : Option String

-- The type of a match on a header, a query parameter or a gRPC method.
pub data MatchType : Type 0 where
  exact regular_expression : MatchType
  other : String → MatchType

pub record HttpHeaderMatch : Type 0 where
  pub type : Option MatchType
  pub name : String
  pub value : String

pub record HttpQueryParamMatch : Type 0 where
  pub type : Option MatchType
  pub name : String
  pub value : String

pub record HttpRouteMatch : Type 0 where
  pub path : Option HttpPathMatch
  pub headers : List HttpHeaderMatch
  pub query_params : List HttpQueryParamMatch
  pub method : Option String

pub record HttpBackendRef : Type 0 where
  pub backend_ref : BackendRef
  pub filters : List HttpRouteFilter

pub record HttpRouteRule : Type 0 where
  pub matches : List HttpRouteMatch
  pub filters : List HttpRouteFilter
  pub backend_refs : List HttpBackendRef

pub record HttpRoute : Type 0 where
  pub name : String
  pub namespace : String
  pub generation : ℕ
  pub parent_refs : List ParentReference
  pub hostnames : List String
  pub rules : List HttpRouteRule
  pub parents : List RouteParentStatus

pub record GrpcMethodMatch : Type 0 where
  pub type : Option MatchType
  pub service : Option String
  pub method : Option String

pub record GrpcHeaderMatch : Type 0 where
  pub type : Option MatchType
  pub name : String
  pub value : String

pub record GrpcRouteMatch : Type 0 where
  pub method : Option GrpcMethodMatch
  pub headers : List GrpcHeaderMatch

pub data GrpcRouteFilterType : Type 0 where
  request_header_modifier response_header_modifier request_mirror : GrpcRouteFilterType
  other : String → GrpcRouteFilterType

pub record GrpcRouteFilter : Type 0 where
  pub type : GrpcRouteFilterType
  pub request_header_modifier : Option HttpHeaderFilter
  pub response_header_modifier : Option HttpHeaderFilter
  pub request_mirror : Option HttpRequestMirrorFilter

pub record GrpcBackendRef : Type 0 where
  pub backend_ref : BackendRef

pub record GrpcRouteRule : Type 0 where
  pub matches : List GrpcRouteMatch
  pub filters : List GrpcRouteFilter
  pub backend_refs : List GrpcBackendRef

pub record GrpcRoute : Type 0 where
  pub name : String
  pub namespace : String
  pub generation : ℕ
  pub parent_refs : List ParentReference
  pub hostnames : List String
  pub rules : List GrpcRouteRule
  pub parents : List RouteParentStatus

-- A rule of a TLS, TCP or UDP route.
pub record BackendRule : Type 0 where
  pub backend_refs : List BackendRef

pub record TlsRoute : Type 0 where
  pub name : String
  pub namespace : String
  pub generation : ℕ
  pub parent_refs : List ParentReference
  pub hostnames : List String
  pub rules : List BackendRule
  pub parents : List RouteParentStatus

-- A TCP or UDP route.
pub record L4Route : Type 0 where
  pub name : String
  pub namespace : String
  pub generation : ℕ
  pub parent_refs : List ParentReference
  pub rules : List BackendRule
  pub parents : List RouteParentStatus
