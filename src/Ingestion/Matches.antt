-- ===== src/Ingestion/Matches.antt =====
-- pkg/model/ingestion/gateway.go: the matches on paths, headers, query parameters and gRPC
-- methods. `none` is the panic of a nil pointer.
use controller_powered_by_di.Base.{
  ◌<>◌, String, Option, none, some, List, [], ◌∷◌, ◌++◌, ◌>>=◌, deref_or,
}
use controller_powered_by_di.Api.{
  PathMatchType, HttpPathMatch, MatchType, HttpHeaderMatch, HttpQueryParamMatch, HttpRouteMatch,
  GrpcMethodMatch, GrpcHeaderMatch, GrpcRouteMatch,
}
use controller_powered_by_di.Model.{StringMatch, KeyValueMatch, no_match}

unfoldable pub path_match : PathMatchType → HttpPathMatch → Option StringMatch
path_match PathMatchType.exact path = do
  value ← path.value
  some (record no_match { exact = value })
path_match PathMatchType.path_prefix path = do
  value ← path.value
  some (record no_match { prefix = value })
path_match PathMatchType.regular_expression path = do
  value ← path.value
  some (record no_match { regex = value })
path_match (PathMatchType.other _) path = some no_match

unfoldable pub path_match? : Option HttpPathMatch → Option StringMatch
unfolding path_match
path_match? none = some no_match
path_match? (some path) = do type ← path.type; path_match type path

unfoldable pub to_path_match : HttpRouteMatch → Option StringMatch
unfolding path_match?
to_path_match match = path_match? match.path

-- A match of the type on the key; another type gives none.
abbrev pub key_value_match : MatchType → String → String → List KeyValueMatch
key_value_match MatchType.exact key value =
    (record { key = key; match = record no_match { exact = value } }) ∷ []
key_value_match MatchType.regular_expression key value =
    (record { key = key; match = record no_match { regex = value } }) ∷ []
key_value_match (MatchType.other _) key value = []

-- The loop of `toHeaderMatch`, which reads the type through its pointer.
unfoldable pub header_matches : List HttpHeaderMatch → Option (List KeyValueMatch)
header_matches [] = some []
header_matches (h ∷ hs) = do
  t ← h.type
  rest ← header_matches hs
  some (key_value_match t h.name h.value ++ rest)

unfoldable pub to_header_match : HttpRouteMatch → Option (List KeyValueMatch)
unfolding header_matches
to_header_match match = header_matches match.headers

-- The loop of `toQueryMatch`, where a missing type is the exact one.
unfoldable pub query_matches : List HttpQueryParamMatch → List KeyValueMatch
query_matches [] = []
query_matches (q ∷ qs) =
    key_value_match (deref_or q.type MatchType.exact) q.name q.value ++ query_matches qs

unfoldable pub to_query_match : HttpRouteMatch → List KeyValueMatch
unfolding query_matches
to_query_match match = query_matches match.query_params

grpc_path : MatchType → String → StringMatch
grpc_path MatchType.exact path = record no_match { exact = path }
grpc_path MatchType.regular_expression path = record no_match { regex = path }
grpc_path (MatchType.other _) path = no_match

abbrev method_path : Option String → String
method_path none = ""
method_path (some method) = "/" <> method

unfoldable pub grpc_service_path : Option String → GrpcMethodMatch → Option StringMatch
unfolding grpc_path
grpc_service_path none m = some no_match
grpc_service_path (some service) m = do
  t ← m.type
  some (grpc_path t ("/" <> (service <> method_path m.method)))

unfoldable pub grpc_path? : Option GrpcMethodMatch → Option StringMatch
unfolding grpc_service_path
grpc_path? none = some no_match
grpc_path? (some m) = grpc_service_path m.service m

unfoldable pub to_grpc_path_match : GrpcRouteMatch → Option StringMatch
unfolding grpc_path?
to_grpc_path_match match = grpc_path? match.method

unfoldable pub grpc_header_matches : List GrpcHeaderMatch → List KeyValueMatch
grpc_header_matches [] = []
grpc_header_matches (h ∷ hs) =
    key_value_match (deref_or h.type MatchType.exact) h.name h.value ++ grpc_header_matches hs

unfoldable pub to_grpc_header_match : GrpcRouteMatch → List KeyValueMatch
unfolding grpc_header_matches
to_grpc_header_match match = grpc_header_matches match.headers
