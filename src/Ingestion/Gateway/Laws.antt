-- ===== src/Ingestion/Gateway/Laws.antt =====
-- Which listeners come out of `GatewayAPI`, and in which order.
use mathlib.Core.List.{append_assoc, append-nil, map-append}
use controller_powered_by_di.Base.{
  ℕ, String, ◌≡◌, sym, ap, ◌∙◌, Bool, true, false, Option, none, some, List, [], ◌∷◌, ◌++◌, map,
  ◌>>=◌, >>=-eq-some, if◌then◌else◌, gather, some_inj,
}
use controller_powered_by_di.Api
use controller_powered_by_di.Api.{Protocol}
use controller_powered_by_di.Model
use controller_powered_by_di.Model.{FullyQualifiedResource}
use controller_powered_by_di.Ingestion.Http.{to_http_routes}
use controller_powered_by_di.Ingestion.Grpc.{to_grpc_routes}
use controller_powered_by_di.Ingestion.Gateway.{
  ListenerWithContext, Input, http_listener, tls_listener, tcp_listener, udp_listener,
  ingest_protocol, ingest_loop, listeners_of, gateway_api, no_listeners,
}

-- A listener as its name, port and sources.
abbrev pub Entry : Type 0
Entry = String × ℕ × List FullyQualifiedResource

abbrev pub http_entry : Model.HttpListener → Entry
http_entry l = (l.name, l.port, l.sources)

abbrev pub tls_entry : Model.TlsListener → Entry
tls_entry l = (l.name, l.port, l.sources)

abbrev pub tcp_entry : Model.TcpListener → Entry
tcp_entry l = (l.name, l.port, l.sources)

abbrev pub udp_entry : Model.UdpListener → Entry
udp_entry l = (l.name, l.port, l.sources)

abbrev pub is_udp : Protocol → Bool
is_udp Protocol.udp = true
is_udp _ = false

abbrev pub is_tcp : Protocol → Bool
is_tcp Protocol.tcp = true
is_tcp _ = false

-- HTTP, HTTPS and TLS.
abbrev pub is_layer7 : Protocol → Bool
is_layer7 Protocol.http = true
is_layer7 Protocol.https = true
is_layer7 Protocol.tls = true
is_layer7 _ = false

abbrev pick : (Protocol → Bool) → ListenerWithContext → List Entry
pick test c =
    if test c.listener.protocol then (c.listener.name, c.listener.port, c.source ∷ []) ∷ [] else []

-- The entries of the listeners whose protocol passes the test.
abbrev pub entries : (Protocol → Bool) → List ListenerWithContext → List Entry
entries test listeners = gather (pick test) listeners

-- The four lists of `after` are those of `before` with the entries behind.
pub record Appended (layer7 tcp udp : List Entry) (before after : Model.Model) : Type 0 where
  pub http_list : map http_entry after.http ≡ map http_entry before.http ++ layer7
  pub tls_list : map tls_entry after.tls ≡ map tls_entry before.tls ++ layer7
  pub tcp_list : map tcp_entry after.tcp ≡ map tcp_entry before.tcp ++ tcp
  pub udp_list : map udp_entry after.udp ≡ map udp_entry before.udp ++ udp

-- Behind each list are the listeners of its protocols, in order.
abbrev pub Listed : List ListenerWithContext → Model.Model → Model.Model → Type 0
Listed listeners =
    Appended (entries is_layer7 listeners) (entries is_tcp listeners) (entries is_udp listeners)

abbrev entry? : Option Model.HttpListener → Entry
entry? none = ("", 0, [])
entry? (some h) = http_entry h

abbrev of_protocol : Protocol → Api.Listener → FullyQualifiedResource → ListenerWithContext
of_protocol p l source = record { listener = record l { protocol = p }; source = source }

-- One listener of the protocol is behind.
abbrev Stepped :
    Protocol → Api.Listener → FullyQualifiedResource → Model.Model → Model.Model → Type 0
Stepped p l source =
    let c = of_protocol p l source in Appended (pick is_layer7 c) (pick is_tcp c) (pick is_udp c)

behind :
    (xs us vs : List Entry) {ys zs : List Entry}
    → ys ≡ xs ++ us
    → zs ≡ ys ++ vs
    → zs ≡ xs ++ (us ++ vs)
behind xs us vs e e' = e' ∙ ap (λ l. l ++ vs) e ∙ append_assoc xs us vs

joined :
    {l7 tcp udp l7' tcp' udp' : List Entry} {m m' m'' : Model.Model}
    → Appended l7 tcp udp m m'
    → Appended l7' tcp' udp' m' m''
    → Appended (l7 ++ l7') (tcp ++ tcp') (udp ++ udp') m m''
joined a b = record {
  http_list = behind _ _ _ a.http_list b.http_list;
  tls_list = behind _ _ _ a.tls_list b.tls_list;
  tcp_list = behind _ _ _ a.tcp_list b.tcp_list;
  udp_list = behind _ _ _ a.udp_list b.udp_list;
}

module _ (input : Input) where
  http_listener-entry :
      (l : Api.Listener) (source : FullyQualifiedResource) (h : Model.HttpListener)
      → http_listener input l source ≡ some h
      → http_entry h ≡ (l.name, l.port, source ∷ [])
  unfolding http_listener
  http_listener-entry l source h e =
      let (_, _, e1) =
        >>=-eq-some
          (to_http_routes l input.services input.reference_grants input.http_routes (some source)) _
          e in
      let (_, _, e2) =
        >>=-eq-some (to_grpc_routes l input.services input.reference_grants input.grpc_routes) _
          e1 in
      ap (λ o. entry? o) (sym e2)

  layer7-Appended :
      (l : Api.Listener) (source : FullyQualifiedResource) (m m' : Model.Model)
      → (do
        http ← http_listener input l source
        some (record m {
          http = m.http ++ http ∷ [];
          tls = m.tls ++ tls_listener input l source ∷ [];
        }))
        ≡ some m'
      → Appended ((l.name, l.port, source ∷ []) ∷ []) [] [] m m'
  unfolding tls_listener
  layer7-Appended l source m m' e =
      let (h, eh, em) = >>=-eq-some (http_listener input l source) _ e in
      rw (sym (some_inj em)) (record {
        http_list =
            map-append http_entry _ _
            ∙ ap (λ x. map http_entry m.http ++ x ∷ []) (http_listener-entry l source h eh);
        tls_list = map-append _ _ _;
        tcp_list = sym (append-nil _);
        udp_list = sym (append-nil _);
      })

  -- What one round of either loop adds.
  ingest_protocol-Listed :
      (p : Protocol) (l : Api.Listener) (source : FullyQualifiedResource) (m m' : Model.Model)
      → ingest_protocol input p l source m ≡ some m'
      → Stepped p l source m m'
  unfolding ingest_protocol tls_listener tcp_listener udp_listener
  ingest_protocol-Listed Protocol.udp l source m m' e = rw (sym (some_inj e)) (record {
    http_list = sym (append-nil _);
    tls_list = sym (append-nil _);
    tcp_list = sym (append-nil _);
    udp_list = map-append _ _ _;
  })
  ingest_protocol-Listed Protocol.tcp l source m m' e = rw (sym (some_inj e)) (record {
    http_list = sym (append-nil _);
    tls_list = sym (append-nil _);
    tcp_list = map-append _ _ _;
    udp_list = sym (append-nil _);
  })
  ingest_protocol-Listed (Protocol.other _) l source m m' e = rw (sym (some_inj e)) (record {
    http_list = sym (append-nil _);
    tls_list = sym (append-nil _);
    tcp_list = sym (append-nil _);
    udp_list = sym (append-nil _);
  })
  ingest_protocol-Listed Protocol.http l source m m' e = layer7-Appended l source m m' e
  ingest_protocol-Listed Protocol.https l source m m' e = layer7-Appended l source m m' e
  ingest_protocol-Listed Protocol.tls l source m m' e = layer7-Appended l source m m' e

  ingest_loop-Listed :
      (listeners : List ListenerWithContext) (m m' : Model.Model)
      → ingest_loop input listeners m ≡ some m'
      → Listed listeners m m'
  unfolding ingest_loop
  ingest_loop-Listed [] m m' e = rw (sym (some_inj e)) (record {
    http_list = sym (append-nil _);
    tls_list = sym (append-nil _);
    tcp_list = sym (append-nil _);
    udp_list = sym (append-nil _);
  })
  ingest_loop-Listed (c ∷ listeners) m m' e =
      let (next, step, rest) =
        >>=-eq-some (ingest_protocol input c.listener.protocol c.listener c.source m) _ e in
      joined (ingest_protocol-Listed c.listener.protocol c.listener c.source m next step)
        (ingest_loop-Listed listeners next m' rest)

-- Where the function returns, it has gone through the listeners of the input in order, each with
-- its source: those of HTTP, HTTPS and TLS give a listener in the HTTP list and one in the TLS
-- list, those of TCP and UDP one in their own list, with the listener's name and port, and
-- any other protocol gives none.
pub gateway_api-Listed :
    (input : Input) (m : Model.Model)
    → gateway_api input ≡ some m
    → Listed (listeners_of input input.listeners) no_listeners m
unfolding gateway_api
gateway_api-Listed input m e =
    ingest_loop-Listed input (listeners_of input input.listeners) no_listeners m e
