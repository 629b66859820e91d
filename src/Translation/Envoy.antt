-- ===== src/Translation/Envoy.antt =====
-- The messages of Envoy's API that pkg/model/translation builds, with the fields that it sets. They
-- come from packages outside the repository. A field without a value is the empty text, an empty
-- list or `none`.
use controller_powered_by_di.Base.{ℕ, String, Option, List, []}

pub data AppendAction : Type 0 where
  append_if_exists_or_add overwrite_if_exists_or_add : AppendAction

pub record HeaderValueOption : Type 0 where
  pub key : String
  pub value : String
  pub append_action : AppendAction

pub data StringMatcher : Type 0 where
  exact prefix safe_regex : String → StringMatcher

-- The two kinds of matchers have a matcher of texts, which may be nil.
pub record HeaderMatcher : Type 0 where
  pub name : String
  pub string_match : Option StringMatcher

pub record QueryParameterMatcher : Type 0 where
  pub name : String
  pub string_match : Option StringMatcher

pub data PathSpecifier : Type 0 where
  path prefix path_separated_prefix safe_regex : String → PathSpecifier

pub record RouteMatch : Type 0 where
  pub path_specifier : PathSpecifier
  pub headers : List HeaderMatcher
  pub query_parameters : List QueryParameterMatcher

pub record HeaderChanges : Type 0 where
  pub request_headers_to_add : List HeaderValueOption
  pub request_headers_to_remove : List String
  pub response_headers_to_add : List HeaderValueOption
  pub response_headers_to_remove : List String

pub record ClusterWeight : Type 0 where
  pub name : String
  pub weight : ℕ
  pub changes : HeaderChanges

pub data ClusterSpecifier : Type 0 where
  cluster : String → ClusterSpecifier
  weighted_clusters : List ClusterWeight → ClusterSpecifier

pub record RegexRewrite : Type 0 where
  pub regex : String
  pub substitution : String

pub record RequestMirrorPolicy : Type 0 where
  pub cluster : String
  pub numerator : ℕ

-- Durations are in nanoseconds.
pub record RouteAction : Type 0 where
  pub cluster_specifier : ClusterSpecifier
  pub max_stream_duration : Option ℕ
  pub host_rewrite_literal : Option String
  pub regex_rewrite : Option RegexRewrite
  pub prefix_rewrite : String
  pub request_mirror_policies : List RequestMirrorPolicy
  pub timeout : Option ℕ

pub data SchemeRewrite : Type 0 where
  https_redirect : SchemeRewrite
  scheme_redirect : String → SchemeRewrite

pub data RedirectResponseCode : Type 0 where
  moved_permanently found see_other temporary_redirect permanent_redirect : RedirectResponseCode

pub data PathRewrite : Type 0 where
  prefix_rewrite path_redirect : String → PathRewrite

-- The response code without a value is `moved_permanently`.
pub record RedirectAction : Type 0 where
  pub scheme_rewrite : Option SchemeRewrite
  pub host_redirect : String
  pub port_redirect : ℕ
  pub response_code : RedirectResponseCode
  pub path_rewrite : Option PathRewrite

pub data Action : Type 0 where
  route : RouteAction → Action
  redirect : RedirectAction → Action
  direct_response : ℕ → String → Action

pub record Route : Type 0 where
  pub match : RouteMatch
  pub action : Action
  pub changes : HeaderChanges

-- A route may be nil.
pub record VirtualHost : Type 0 where
  pub name : String
  pub domains : List String
  pub routes : List (Option Route)

pub record RouteConfiguration : Type 0 where
  pub name : String
  pub virtual_hosts : List VirtualHost

abbrev pub no_changes : HeaderChanges
no_changes = record {
  request_headers_to_add = [];
  request_headers_to_remove = [];
  response_headers_to_add = [];
  response_headers_to_remove = [];
}
