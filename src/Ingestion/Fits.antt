-- ===== src/Ingestion/Fits.antt =====
-- Which matches and filters of a route the ingestion reads without a nil pointer: those with the
-- fields set that their types name, as the API's validation has them.
use controller_powered_by_di.Base.{String, ◌≡◌, refl, Option, none, some, List, [], ◌∷◌, ◌>>=◌, All}
use controller_powered_by_di.Api.{
  PathMatchType, HttpPathMatch, HttpHeaderMatch, HttpRouteMatch, HttpRouteFilter,
  HttpRouteFilterType, HttpHeaderFilter, HttpRequestMirrorFilter, HttpPathModifier,
  PathModifierType, HttpUrlRewriteFilter, HttpRequestRedirectFilter, Listener, GrpcMethodMatch,
  GrpcRouteMatch, GrpcRouteFilter, GrpcRouteFilterType,
}
use controller_powered_by_di.Ingestion.Matches.{
  to_path_match, path_match, path_match?, to_header_match, header_matches, to_grpc_path_match,
  grpc_path?, grpc_service_path,
}
use controller_powered_by_di.Ingestion.Filters.{
  to_header_filter, to_http_request_mirror, to_http_request_redirect_filter, redirect_path,
  redirect_path?, to_http_rewrite_filter, rewrite_path, rewrite_path?,
}

-- A pointer that is not nil.
abbrev pub Present {ℓ} : {A : Type ℓ} → Option A → Type ℓ
Present o = (a : _) × (o ≡ some a)

-- An optional part, where it is there, has the property.
abbrev pub IfPresent {ℓ} : {A : Type ℓ} → (A → Type 0) → Option A → Type 0
IfPresent P none = Unit
IfPresent P (some a) = P a

pub record PathFits (p : HttpPathMatch) : Type 0 where
  pub type : Present p.type
  pub value : Present p.value

pub record MatchFits (m : HttpRouteMatch) : Type 0 where
  pub path : IfPresent PathFits m.path
  pub headers : All (λ h. Present h.type) m.headers

pub bind-Present {ℓ κ} :
    {A : Type ℓ} {B : Type κ} (o : Option A) (f : A → Option B)
    → Present o
    → ((a : A) → Present (f a))
    → Present (o >>= f)
bind-Present none f (a, e) k = cc
bind-Present (some a) f _ k = k a

path_match-total : (t : PathMatchType) (p : HttpPathMatch) → PathFits p → Present (path_match t p)
unfolding path_match
path_match-total PathMatchType.exact p f = bind-Present p.value _ f.value (λ v. (_, refl))
path_match-total PathMatchType.path_prefix p f = bind-Present p.value _ f.value (λ v. (_, refl))
path_match-total PathMatchType.regular_expression p f =
    bind-Present p.value _ f.value (λ v. (_, refl))
path_match-total (PathMatchType.other _) p f = (_, refl)

path_match?-total : (p : Option HttpPathMatch) → IfPresent PathFits p → Present (path_match? p)
unfolding path_match?
path_match?-total none _ = (_, refl)
path_match?-total (some p) f = bind-Present p.type _ f.type (λ t. path_match-total t p f)

pub to_path_match-total : (m : HttpRouteMatch) → MatchFits m → Present (to_path_match m)
unfolding to_path_match
to_path_match-total m f = path_match?-total m.path f.path

header_matches-total :
    (hs : List HttpHeaderMatch) → All (λ h. Present h.type) hs → Present (header_matches hs)
unfolding header_matches
header_matches-total [] _ = (_, refl)
header_matches-total (h ∷ hs) (t, ts) =
    bind-Present h.type _ t
      (λ _. bind-Present (header_matches hs) _ (header_matches-total hs ts) (λ _. (_, refl)))

pub to_header_match-total : (m : HttpRouteMatch) → MatchFits m → Present (to_header_match m)
unfolding to_header_match
to_header_match-total m f = header_matches-total m.headers f.headers

-- A gRPC method whose service is set has a type.
abbrev pub MethodFits : GrpcMethodMatch → Type 0
MethodFits m = IfPresent (λ _. Present m.type) m.service

pub to_grpc_path_match-total :
    (m : GrpcRouteMatch) → IfPresent MethodFits m.method → Present (to_grpc_path_match m)
unfolding to_grpc_path_match grpc_path? grpc_service_path
to_grpc_path_match-total m f = of_method m.method f
  where
    of_service :
        (service : Option String) (method : GrpcMethodMatch)
        → IfPresent (λ _. Present method.type) service
        → Present (grpc_service_path service method)
    of_service none method _ = (_, refl)
    of_service (some s) method t = bind-Present method.type _ t (λ _. (_, refl))

    of_method : (o : Option GrpcMethodMatch) → IfPresent MethodFits o → Present (grpc_path? o)
    of_method none _ = (_, refl)
    of_method (some method) t = of_service method.service method t

-- The replacement that the modifier's type names is set.
abbrev ModifierFits : PathModifierType → HttpPathModifier → Type 0
ModifierFits PathModifierType.full_path p = Present p.replace_full_path
ModifierFits PathModifierType.prefix_match p = Present p.replace_prefix_match
ModifierFits (PathModifierType.other _) p = Unit

abbrev RedirectFits : HttpRequestRedirectFilter → Type 0
RedirectFits r = IfPresent (λ p. ModifierFits p.type p) r.path

abbrev RewriteFits : HttpUrlRewriteFilter → Type 0
RewriteFits r = IfPresent (λ p. ModifierFits p.type p) r.path

-- The part that the filter's type names is set, and a path in it has its replacement.
abbrev pub FilterFits : HttpRouteFilterType → HttpRouteFilter → Type 0
FilterFits HttpRouteFilterType.request_header_modifier f = Present f.request_header_modifier
FilterFits HttpRouteFilterType.response_header_modifier f = Present f.response_header_modifier
FilterFits HttpRouteFilterType.request_redirect f = IfPresent RedirectFits f.request_redirect
FilterFits HttpRouteFilterType.url_rewrite f = IfPresent RewriteFits f.url_rewrite
FilterFits HttpRouteFilterType.request_mirror f = Present f.request_mirror
FilterFits HttpRouteFilterType.external_auth f = Unit
FilterFits (HttpRouteFilterType.other _) f = Unit

abbrev pub GrpcFilterFits : GrpcRouteFilterType → GrpcRouteFilter → Type 0
GrpcFilterFits GrpcRouteFilterType.request_header_modifier f = Present f.request_header_modifier
GrpcFilterFits GrpcRouteFilterType.response_header_modifier f = Present f.response_header_modifier
GrpcFilterFits GrpcRouteFilterType.request_mirror f = Present f.request_mirror
GrpcFilterFits (GrpcRouteFilterType.other _) f = Unit

pub to_header_filter-total :
    (o : Option HttpHeaderFilter) → Present o → Present (to_header_filter o)
unfolding to_header_filter
to_header_filter-total none (_, e) = cc
to_header_filter-total (some _) _ = (_, refl)

pub to_http_request_mirror-total :
    (o : Option HttpRequestMirrorFilter) (ns : String)
    → Present o
    → Present (to_http_request_mirror o ns)
unfolding to_http_request_mirror
to_http_request_mirror-total none ns (_, e) = cc
to_http_request_mirror-total (some _) ns _ = (_, refl)

pub to_http_request_redirect_filter-total :
    (listener : Listener) (o : Option HttpRequestRedirectFilter)
    → IfPresent RedirectFits o
    → Present (to_http_request_redirect_filter listener o)
unfolding to_http_request_redirect_filter redirect_path? redirect_path
to_http_request_redirect_filter-total listener none _ = (_, refl)
to_http_request_redirect_filter-total listener (some r) f =
    bind-Present (redirect_path? r.path) _ (of_path r.path f) (λ _. (_, refl))
  where
    of_type :
        (t : PathModifierType) (p : HttpPathModifier)
        → ModifierFits t p
        → Present (redirect_path t p)
    of_type PathModifierType.full_path p f = bind-Present p.replace_full_path _ f (λ _. (_, refl))
    of_type PathModifierType.prefix_match p f =
        bind-Present p.replace_prefix_match _ f (λ _. (_, refl))
    of_type (PathModifierType.other _) p f = (_, refl)

    of_path :
        (o : Option HttpPathModifier)
        → IfPresent (λ p. ModifierFits p.type p) o
        → Present (redirect_path? o)
    of_path none _ = (_, refl)
    of_path (some p) f =
        bind-Present (redirect_path p.type p) _ (of_type p.type p f) (λ _. (_, refl))

pub to_http_rewrite_filter-total :
    (o : Option HttpUrlRewriteFilter) → IfPresent RewriteFits o → Present (to_http_rewrite_filter o)
unfolding to_http_rewrite_filter rewrite_path? rewrite_path
to_http_rewrite_filter-total none _ = (_, refl)
to_http_rewrite_filter-total (some r) f =
    bind-Present (rewrite_path? r.path) _ (of_path r.path f) (λ _. (_, refl))
  where
    of_type :
        (t : PathModifierType) (p : HttpPathModifier)
        → ModifierFits t p
        → Present (rewrite_path t p)
    of_type PathModifierType.full_path p f = bind-Present p.replace_full_path _ f (λ _. (_, refl))
    of_type PathModifierType.prefix_match p f =
        bind-Present p.replace_prefix_match _ f (λ _. (_, refl))
    of_type (PathModifierType.other _) p f = (_, refl)

    of_path :
        (o : Option HttpPathModifier)
        → IfPresent (λ p. ModifierFits p.type p) o
        → Present (rewrite_path? o)
    of_path none _ = (_, refl)
    of_path (some p) f = of_type p.type p f
