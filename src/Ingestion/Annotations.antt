-- ===== src/Ingestion/Annotations.antt =====
-- pkg/ingress/annotations/annotations.go: the annotations of an Ingress. The lookup of an annotation
-- under a name or an alias is in the infrastructure library, and the parsing of durations in the
-- standard library: both are arguments.
use controller_powered_by_di.Base.{
  ℕ, String, Bool, true, false, Option, none, some, List, [], ◌∷◌, ◌==◌, if◌then◌else◌, deref_or,
}
use controller_powered_by_di.Base.ParseInt.{parse_int32, parse_bool}

-- `annotation.Get` by the names in their order, and `time.ParseDuration` in nanoseconds, for
-- durations that are not negative.
pub record Lookups : Type 0 where
  pub get : List (String × String) → List String → Option String
  pub parse_duration : String → Option ℕ

module _ (lookups : Lookups) (annotations : List (String × String)) where
  unfoldable pub get_annotation_ingress_loadbalancer_mode : String
  get_annotation_ingress_loadbalancer_mode =
      deref_or
        (lookups.get annotations
          ("ingress.dolphin.io/loadbalancer-mode" ∷ ("dolphin.io.ingress/loadbalancer-mode" ∷ [])))
        ""

  unfoldable pub get_annotation_tls_passthrough_enabled : Bool
  unfolding parse_bool
  get_annotation_tls_passthrough_enabled =
      elim (lookups.get annotations
        ("ingress.dolphin.io/tls-passthrough" ∷ ("dolphin.io.ingress/tls-passthrough" ∷ []))) [
          | none ↦ false
          | some val ↦ if val == "enabled" then true else deref_or (parse_bool val) false
        ]

  unfoldable pub get_annotation_service_type : String
  get_annotation_service_type =
      deref_or
        (lookups.get annotations
          ("ingress.dolphin.io/service-type" ∷ ("dolphin.io.ingress/service-type" ∷ [])))
        "LoadBalancer"

  -- `none` is an error, and `some none` a missing annotation.
  parse_port : Option String → Option (Option ℕ)
  unfolding parse_int32
  parse_port none = some none
  parse_port (some val) = elim (parse_int32 val) [ none ↦ none | some n ↦ some (some n) ]

  unfoldable pub get_annotation_secure_node_port : Option (Option ℕ)
  unfolding parse_port
  get_annotation_secure_node_port = parse_port (
      lookups.get annotations
        ("ingress.dolphin.io/secure-node-port" ∷ ("dolphin.io.ingress/secure-node-port" ∷ [])))

  unfoldable pub get_annotation_insecure_node_port : Option (Option ℕ)
  unfolding parse_port
  get_annotation_insecure_node_port = parse_port (
      lookups.get annotations
        ("ingress.dolphin.io/insecure-node-port" ∷ ("dolphin.io.ingress/insecure-node-port" ∷ [])))

  unfoldable pub get_annotation_host_listener_port : Option (Option ℕ)
  unfolding parse_port
  get_annotation_host_listener_port =
      parse_port (lookups.get annotations ("ingress.dolphin.io/host-listener-port" ∷ []))

  unfoldable pub get_annotation_request_timeout : Option (Option ℕ)
  get_annotation_request_timeout =
      elim (lookups.get annotations ("ingress.dolphin.io/request-timeout" ∷ [])) [
        | none ↦ some none
        | some val ↦ elim (lookups.parse_duration val) [ none ↦ none | some d ↦ some (some d) ]
      ]

  unfoldable pub get_annotation_force_https_enabled : Option Bool
  unfolding parse_bool
  get_annotation_force_https_enabled =
      elim (lookups.get annotations ("ingress.dolphin.io/force-https" ∷ [])) [
        | none ↦ none
        | some val ↦
            if val == "enabled"
            then some true
            else if val == "disabled"
            then some false
            else parse_bool val
      ]
