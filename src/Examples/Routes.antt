-- ===== src/Examples/Routes.antt =====
-- The ingestion at concrete objects.
use controller_powered_by_di.Base.{
  ◌*◌, ◌≡◌, ◌≢◌, refl, true, false, eq_iff, none, some, [], ◌∷◌, All, length, deref_or,
}
use controller_powered_by_di.Model
use controller_powered_by_di.Helpers.Grants.{is_backend_reference_allowed}
use controller_powered_by_di.Ingestion.Backends.{usable_backends, service_exists}
use controller_powered_by_di.Ingestion.Backends.Laws.{
  Resolved, usable_backends-Resolved, usable_backends-home,
}
use controller_powered_by_di.Ingestion.Http.{to_http_routes}
use controller_powered_by_di.Ingestion.Http.Laws.{Served, to_http_routes-Served}
use controller_powered_by_di.Ingestion.Streams.{to_tls_routes}
use controller_powered_by_di.Ingestion.Streams.Laws.{attached_rules, length-to_tls_routes}
use controller_powered_by_di.Ingestion.Gateway.{gateway_api, listeners_of, no_listeners}
use controller_powered_by_di.Ingestion.Gateway.Laws.{Listed, gateway_api-Listed}
use controller_powered_by_di.Ingestion.Gateway.Total.{InputFits, gateway_api-total}
use controller_powered_by_di.Examples.Objects.{
  shop, to_service, web, source, route, tls_route, gateway_input, grant,
}

input_fits : InputFits gateway_input
input_fits = record {
  http = (
    (
      (record {
        matches = (
          (record {
            path = record { type = (_, refl); value = (_, refl) };
            headers = ((_, refl), tt);
          }),
          tt,
        );
        filters = (tt, tt);
        backends = (tt, (tt, tt));
      }),
      tt,
    ),
    tt,
  );
  grpc = tt;
}

gateway_api-total_example : (m : Model.Model) × (gateway_api gateway_input ≡ some m)
gateway_api-total_example = gateway_api-total gateway_input input_fits

gateway_api-Listed_example :
    Listed
      (listeners_of gateway_input gateway_input.listeners)
      no_listeners
      (gateway_api-total gateway_input input_fits).0
gateway_api-Listed_example =
    gateway_api-Listed gateway_input (gateway_api-total gateway_input input_fits).0
      (gateway_api-total gateway_input input_fits).1

to_http_routes-Served_example :
    All
      (Served (shop ∷ []))
      (deref_or (to_http_routes web (shop ∷ []) [] (route ∷ []) (some source)) [])
unfolding to_http_routes is_backend_reference_allowed service_exists
to_http_routes-Served_example =
    to_http_routes-Served web (shop ∷ []) [] (route ∷ []) (some source) _ refl

-- Two attached rules give four routes.
length-to_tls_routes_example :
    length (to_tls_routes web (shop ∷ []) [] (tls_route ∷ tls_route ∷ []))
    ≡ length (attached_rules web (shop ∷ []) [] (tls_route ∷ tls_route ∷ []))
      * length (attached_rules web (shop ∷ []) [] (tls_route ∷ tls_route ∷ []))
length-to_tls_routes_example = length-to_tls_routes web (shop ∷ []) [] (tls_route ∷ tls_route ∷ [])

usable_backends-Resolved_example : All (Resolved (shop ∷ [])) (
    usable_backends "HttpRoute" "apps"
      (shop ∷ [])
      []
      (to_service none "shop" ∷ to_service none "gone" ∷ []))
usable_backends-Resolved_example =
    usable_backends-Resolved "HttpRoute" "apps" (shop ∷ []) []
      (to_service none "shop" ∷ to_service none "gone" ∷ [])

false_ne_true : false ≡ true → ⊥
false_ne_true e = cc

other_kind : All (λ g. All (λ f. f.kind ≢ "HttpRoute") g.from) (grant ∷ [])
other_kind = (((λ e. false_ne_true ((eq_iff "HTTPRoute" "HttpRoute").1 e)), tt), tt)

-- The grant is for the kind `HTTPRoute`, and is not found.
usable_backends-home_example :
    All
      (λ b. b.namespace ≡ "apps")
      (usable_backends "HttpRoute" "apps"
        (shop ∷ [])
        (grant ∷ [])
        (to_service (some "other") "shop" ∷ []))
usable_backends-home_example =
    usable_backends-home "HttpRoute" "apps" (shop ∷ []) (grant ∷ []) other_kind
      (to_service (some "other") "shop" ∷ [])
