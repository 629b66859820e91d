-- ===== src/Examples/Listeners.antt =====
-- Listeners, server names and policies at concrete objects.
use controller_powered_by_di.Base.{
  ℕ, Bool, String, true, ◌≡◌, ◌≢◌, ◌↔◌, refl, Option, none, some, List, [], ◌∷◌,
}
use controller_powered_by_di.Api.{
  Protocol, TlsMode, FromNamespaces, NamespacedName, LabelSelector, Listener,
}
use controller_powered_by_di.Helpers.Sni.{sni_hostnames_intersect}
use controller_powered_by_di.Helpers.Sni.Laws.{sni_hostnames_intersect_comm}
use controller_powered_by_di.Listeners.Certs.{Fetched}
use controller_powered_by_di.Examples.Pem.{decode}
use controller_powered_by_di.Listeners.Validation.{Params, validate_listener}
use controller_powered_by_di.Listeners.Validation.Laws.{
  IsValidListener, validate_listener-IsValidListener,
}
use controller_powered_by_di.Listeners.Attach.{http_route, listener_is_allowed}
use controller_powered_by_di.Listeners.Attach.Laws.{TakesKind, listener_is_allowed_iff}
use controller_powered_by_di.Helpers.Namespaces.{Labels}
use controller_powered_by_di.Helpers.Namespaces.Laws.{Admits, policy_of}
use controller_powered_by_di.BackendTls.{Policy, TargetRef, build_backend_tls_policy_lookup}
use controller_powered_by_di.BackendTls.Laws.{valid_at}
use controller_powered_by_di.BackendTls.Winner.{
  IsSettled, build_backend_tls_policy_lookup-IsSettled,
}
use controller_powered_by_di.Examples.Objects.{web}

-- A listener that ends TLS with a secret, for the routes of its namespace of one kind.
abbrev strict : Listener
strict = record web {
  protocol = Protocol.https;
  tls = some (record {
    mode = some TlsMode.terminate;
    certificate_refs = record { group = none; kind = none; name = "cert"; namespace = none } ∷ [];
  });
  allowed_routes = some (record {
    namespaces = some (record { from = some FromNamespaces.same; selector = none });
    kinds = some (record { group = some "gateway.networking.k8s.io"; kind = "HTTPRoute" } ∷ []);
  });
}

abbrev params : Params
params = record {
  owner_namespace = "apps";
  owner_kind = "Gateway";
  generation = 1;
  grants = [];
  get_secret = λ _ _. Fetched.secret "certificate\n\n" "key\n\n";
  decode = decode;
  now = 9;
}

validate_listener-IsValidListener_example :
    ((validate_listener params strict).is_valid ≡ true) ↔ IsValidListener params strict
validate_listener-IsValidListener_example = validate_listener-IsValidListener params strict

sni_hostnames_intersect_comm_example :
    (sni_hostnames_intersect "*.a.com" "*.b.a.com" ≢ none)
    × (sni_hostnames_intersect "*.a.com" "*.b.a.com"
        ≡ sni_hostnames_intersect "*.b.a.com" "*.a.com")
sni_hostnames_intersect_comm_example = sni_hostnames_intersect_comm "*.a.com" "*.b.a.com"

abbrev to_shop : TargetRef
to_shop = record { group = ""; kind = "Service"; name = "shop"; section_name = none }

abbrev policy : String → ℕ → Policy
policy name created = record {
  key = record { namespace = "apps"; name = name };
  created = created;
  target_refs = to_shop ∷ [];
}

-- Both policies are of the same second.
abbrev age : NamespacedName → ℕ
age _ = 5

abbrev policies : List Policy
policies = policy "b" 5 ∷ policy "a" 5 ∷ []

abbrev shop_name : NamespacedName
shop_name = record { namespace = "apps"; name = "shop" }

build_backend_tls_policy_lookup-IsSettled_example :
    IsSettled shop_name "" policies
      (valid_at (build_backend_tls_policy_lookup policies) shop_name "")
build_backend_tls_policy_lookup-IsSettled_example =
    build_backend_tls_policy_lookup-IsSettled age policies (refl, (refl, tt)) shop_name ""

-- Every selector is invalid.
no_selector : Option LabelSelector → Option (Labels → Bool)
no_selector _ = none

listener_is_allowed_iff_example :
    (listener_is_allowed no_selector "apps" strict http_route "apps" [] ≡ true) ↔ (
      TakesKind http_route strict.allowed_routes
      × Admits no_selector [] "apps" "apps" (policy_of strict.allowed_routes))
listener_is_allowed_iff_example =
    listener_is_allowed_iff no_selector "apps" strict http_route "apps" []
