-- ===== src/Ingestion/Filters.antt =====
-- pkg/model/ingestion/gateway.go: headers, mirrors, redirects and rewrites. `none` is the panic of
-- a nil pointer.
use controller_powered_by_di.Base.{ℕ, String, Option, none, some, List, map, ◌>>=◌}
use controller_powered_by_di.Base.Text.{trim_suffix}
use controller_powered_by_di.Api.{
  HttpHeader, HttpHeaderFilter, HttpRequestMirrorFilter, HttpRequestRedirectFilter,
  HttpUrlRewriteFilter, HttpPathModifier, PathModifierType, Listener,
}
use controller_powered_by_di.Model
use controller_powered_by_di.Model.{no_match}
use controller_powered_by_di.Ingestion.Backends.{backend_ref_to_model_backend}

unfoldable pub to_http_headers : List HttpHeader → List Model.Header
to_http_headers headers = map (λ h. record { name = h.name; value = h.value }) headers

-- The header filter that a modifier becomes.
unfoldable pub to_header_filter : Option HttpHeaderFilter → Option Model.HttpHeaderFilter
unfolding to_http_headers
to_header_filter none = none
to_header_filter (some f) = some (record {
  headers_to_add = to_http_headers f.add;
  headers_to_set = to_http_headers f.set;
  headers_to_remove = f.remove;
})

unfoldable pub to_http_request_mirror :
    Option HttpRequestMirrorFilter → String → Option Model.HttpRequestMirror
to_http_request_mirror none ns = none
to_http_request_mirror (some mirror) ns =
    some (record { backend = some (backend_ref_to_model_backend mirror.backend_ref ns) })

-- The modifier of a redirect's path.
unfoldable pub redirect_path : PathModifierType → HttpPathModifier → Option Model.StringMatch
redirect_path PathModifierType.full_path path = do
  full ← path.replace_full_path
  some (record no_match { exact = full })
redirect_path PathModifierType.prefix_match path = do
  prefix ← path.replace_prefix_match
  some (record no_match { prefix = prefix })
redirect_path (PathModifierType.other _) path = some no_match

unfoldable pub redirect_path? : Option HttpPathModifier → Option (Option Model.StringMatch)
unfolding redirect_path
redirect_path? none = some none
redirect_path? (some path) = do modifier ← redirect_path path.type path; some (some modifier)

-- With no port and no scheme the listener's port.
abbrev redirect_port : Option ℕ → Option String → ℕ → Option ℕ
redirect_port none none listener_port = some listener_port
redirect_port none (some _) listener_port = none
redirect_port (some port) scheme listener_port = some port

unfoldable pub to_http_request_redirect_filter :
    Listener → Option HttpRequestRedirectFilter → Option (Option Model.HttpRequestRedirectFilter)
unfolding redirect_path?
to_http_request_redirect_filter listener none = some none
to_http_request_redirect_filter listener (some redirect) = do
  path_modifier ← redirect_path? redirect.path
  some (
      some (record {
        scheme = redirect.scheme;
        hostname = redirect.hostname;
        path = path_modifier;
        port = redirect_port redirect.port redirect.scheme listener.port;
        status_code = redirect.status_code;
      }))

unfoldable pub rewrite_path :
    PathModifierType → HttpPathModifier → Option (Option Model.StringMatch)
unfolding trim_suffix
rewrite_path PathModifierType.full_path path = do
  full ← path.replace_full_path
  some (some (record no_match { exact = full }))
rewrite_path PathModifierType.prefix_match path = do
  prefix ← path.replace_prefix_match
  some (some (record no_match { prefix = trim_suffix prefix "/" }))
rewrite_path (PathModifierType.other _) path = some none

unfoldable pub rewrite_path? : Option HttpPathModifier → Option (Option Model.StringMatch)
unfolding rewrite_path
rewrite_path? none = some none
rewrite_path? (some path) = rewrite_path path.type path

unfoldable pub to_http_rewrite_filter :
    Option HttpUrlRewriteFilter → Option (Option Model.HttpUrlRewriteFilter)
unfolding rewrite_path?
to_http_rewrite_filter none = some none
to_http_rewrite_filter (some rewrite) = do
  path_filter ← rewrite_path? rewrite.path
  some (some (record { host_name = rewrite.hostname; path = path_filter }))
