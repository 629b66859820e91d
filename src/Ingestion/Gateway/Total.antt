-- ===== src/Ingestion/Gateway/Total.antt =====
-- When `GatewayAPI` returns.
use controller_powered_by_di.Base.{◌≡◌, refl, some, List, [], ◌∷◌, All}
use controller_powered_by_di.Api
use controller_powered_by_di.Api.{Protocol}
use controller_powered_by_di.Model
use controller_powered_by_di.Model.{FullyQualifiedResource}
use controller_powered_by_di.Ingestion.Fits.{Present, bind-Present}
use controller_powered_by_di.Ingestion.Http.{to_http_routes}
use controller_powered_by_di.Ingestion.Http.Total.{RuleFits, to_http_routes-total}
use controller_powered_by_di.Ingestion.Grpc.{to_grpc_routes}
use controller_powered_by_di.Ingestion.Grpc.Total.{GrpcRuleFits, to_grpc_routes-total}
use controller_powered_by_di.Ingestion.Gateway.{
  ListenerWithContext, Input, http_listener, ingest_protocol, ingest_loop, listeners_of,
  gateway_api, no_listeners,
}

-- Every rule of the HTTP and gRPC routes has the fields set that its matches and filters name.
pub record InputFits (input : Input) : Type 0 where
  pub http : All (λ r. All RuleFits r.rules) input.http_routes
  pub grpc : All (λ r. All GrpcRuleFits r.rules) input.grpc_routes

module _ (input : Input) (fits : InputFits input) where
  http_listener-total :
      (l : Api.Listener) (source : FullyQualifiedResource) → Present (http_listener input l source)
  unfolding http_listener
  http_listener-total l source =
      bind-Present
        (to_http_routes l input.services input.reference_grants input.http_routes (some source)) _
        (to_http_routes-total l input.services input.reference_grants input.http_routes
          (some source) fits.http)
        (λ _.
          bind-Present (to_grpc_routes l input.services input.reference_grants input.grpc_routes) _
            (to_grpc_routes-total l input.services input.reference_grants input.grpc_routes
              fits.grpc)
            (λ _. (_, refl)))

  ingest_protocol-total :
      (p : Protocol) (l : Api.Listener) (source : FullyQualifiedResource) (m : Model.Model)
      → Present (ingest_protocol input p l source m)
  unfolding ingest_protocol
  ingest_protocol-total Protocol.udp l source m = (_, refl)
  ingest_protocol-total Protocol.tcp l source m = (_, refl)
  ingest_protocol-total (Protocol.other _) l source m = (_, refl)
  ingest_protocol-total Protocol.http l source m =
      bind-Present (http_listener input l source) _ (http_listener-total l source) (λ _. (_, refl))
  ingest_protocol-total Protocol.https l source m =
      bind-Present (http_listener input l source) _ (http_listener-total l source) (λ _. (_, refl))
  ingest_protocol-total Protocol.tls l source m =
      bind-Present (http_listener input l source) _ (http_listener-total l source) (λ _. (_, refl))

  ingest_loop-total :
      (listeners : List ListenerWithContext) (m : Model.Model)
      → Present (ingest_loop input listeners m)
  unfolding ingest_loop
  ingest_loop-total [] m = (_, refl)
  ingest_loop-total (c ∷ listeners) m =
      bind-Present (ingest_protocol input c.listener.protocol c.listener c.source m) _
        (ingest_protocol-total c.listener.protocol c.listener c.source m)
        (λ next. ingest_loop-total listeners next)

-- Where the matches and filters of the HTTP and gRPC routes have the types set that the code reads,
-- and the fields that their types name, the ingestion returns a model: no nil pointer is read, whatever the Gateway, the listeners, the
-- grants, the services and the other routes.
pub gateway_api-total :
    (input : Input) → InputFits input → (m : Model.Model) × (gateway_api input ≡ some m)
unfolding gateway_api
gateway_api-total input fits =
    ingest_loop-total input fits (listeners_of input input.listeners) no_listeners
