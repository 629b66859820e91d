-- ===== src/Lib.antt =====
-- A controller of the Kubernetes Gateway API that programs Envoy. This library models the core of
-- it: the model of listeners and routes, its ingestion from the objects of the API, the helpers on
-- references, grants, namespaces and conditions, the checks that decide the status of a route at
-- its parents, the translation of the model to Envoy, and what the controller of Ingresses builds
-- with them.
--
-- Api has the records of the Gateway API and of Kubernetes that the code reads (Refs, Listeners,
-- Routes). They come from packages outside the repository and carry the fields that the code reads.
-- An enumeration of texts has a constructor for any other text.
--
-- Model: pkg/model. Model.Types has the records of model.go with the accessors of listeners;
-- Model.MatchKey is GetMatchKey, which sorts the matches in place and is given as the key with the
-- route that it leaves; Model.Ports is GetPort; Model.Hosts is ComputeHosts with Matching and Taken
-- for what its results mean, and Model.Names is Shorten of helper.go. The length of a text is in
-- bytes of UTF-8, and a cut inside a character drops the character.
--
-- Ingestion: pkg/model/ingestion/gateway.go. Backends has what all the kinds of routes share on
-- backends; Filters, Matches, Http, Grpc and Streams (TCP, UDP and TLS) are the functions
-- toHTTPRoutes, toGRPCRoutes, toTCPRoutes, toUDPRoutes and toTLSRoutes with theirs; Gateway is
-- GatewayAPI. Ingress, with Passthrough, is ingress.go of the same package, with AddSource of
-- pkg/model/helper.go, and Annotations is pkg/ingress/annotations. Go reads some optional fields
-- through pointers without a test: the result none is that panic. Ingestion.Fits has the conditions
-- on the objects that exclude it.
--
-- Helpers: pkg/gateway_api/helpers. Kinds is types.go, Grants is referencegrants.go, Namespaces is
-- namespaces.go and Conditions is conditions.go, whose merge pkg/gateway_api/status.go and
-- pkg/gateway_api/routechecker/conditions.go repeat. The conversion of a label selector is a
-- parameter, since it is in a library: it fails, or gives a test of labels.
--
-- RouteChecks: pkg/gateway_api/routechecker. Status has the interface Input of input.go as a record
-- of what the checks read, with the Gateway that is found for a parent, and the status of a route
-- as an explicit list that set_parent_condition of httproute.go updates. Backends is
-- route_checks.go and Gateways, with Protocols and Allowed, is gateway_checkers.go. Verdict has
-- what a check promises: when it passes, that it changes nothing then, the condition it sets
-- otherwise, and that other parents keep theirs.
--
-- Listeners: pkg/gateway_api/gateway_reconcile.go (validateListener and validateTLSSecret) and
-- pkg/gateway_api/helpers.go (the supported kinds, isValidPemFormat, and in Attach
-- listenerisAllowed). Helpers.Sni is pkg/gateway_api/helpers/gateway.go. BackendTls is
-- pkg/gateway_api/helpers/backendtlspolicy.go: its maps are association lists, which the lookup
-- reads and writes by key. The secrets that the client gives and the decoding of PEM are
-- parameters.
--
-- Translation: pkg/model/translation. VirtualHost, Matchers, Headers and Actions are
-- envoy_virtual_host.go; BackendPorts, RouteConfigs, Translator and the end of Clusters are
-- translator.go; Clusters is envoy_cluster.go, Listeners envoy_listener.go, ConnectionManager
-- envoy_http_connection_manager.go, Gateway gateway-api/translator.go and Ingress the translators
-- in ingress/. Envoy has the messages that a virtual host is made of. A message is a record of the
-- fields that the arguments decide; what is the same in every message is left out, and the
-- marshalling of a message is taken to succeed. Infra is the interface to the functions of the
-- infrastructure library, with its laws as a record that a theorem takes as a hypothesis where it
-- depends on them. A map that the code walks in an unspecified order is walked in the order of its
-- insertions; the code sorts what it makes of it. strings.ToUpper is modelled for ASCII, and the
-- hash of a name and the number of trusted hops of the options are arguments. A nil pointer that is
-- read, an index out of range and the nil routes that sort.Stable reads are the result none.
--
-- IngressController: pkg/ingress. It has isdolphinManagedIngress and the functions under it
-- (helpers.go), the mode of the load balancer (ingress.go), and buildDedicatedResources and
-- buildSharedResources (ingress_reconcile.go), which compose the ingestion of Ingresses with the
-- translation. The list of Ingresses and the class dolphin, which the client gives, are arguments;
-- the lookup of an annotation and the parsing of a duration are the record Lookups. mergeMap
-- changes the map of the Ingress in place; the Ingress is not read after that, and the model
-- returns the map.
--
-- Numbers: a port, a weight, a generation and a time are natural numbers; the code copies and
-- compares them and does no arithmetic on them, except that the port of a listener is cut to 16
-- bits for Envoy and taken to 32 bits with a sign, written as its residue, for a service. Loops are
-- recursion on the lists they go through, so that no fuel is needed, except for isValidPemFormat,
-- whose fuel is one more than the length of its text: that is enough, since the decoding of a block
-- leaves a shorter text. What is documented of pem.Decode is the record IsDecode of
-- Listeners.Certs.Laws. Base has the shared tests and loops, and Go's functions on texts. Examples
-- has the theorems at concrete objects.
--
-- Not modelled: the rest of the reconcilers and their calls of the client, the conflicts of
-- listeners, and the wiring of the processes.
pub mod Api
pub mod BackendTls
pub mod Base
pub mod Examples
pub mod Helpers
pub mod Ingestion
pub mod IngressController
pub mod Listeners
pub mod Model
pub mod RouteChecks
pub mod Translation
