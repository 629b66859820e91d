-- ===== src/Translation/Ingress.antt =====
-- pkg/model/translation/ingress: the configuration, the service and the endpoints of an Ingress of
-- its own, and the translator of the shared mode.
use controller_powered_by_di.Base.{
  ◌<>◌, ℕ, ◌%◌, ◌^◌, String, Bool, true, false, Option, none, some, List, [], ◌∷◌, ◌==◌, ◌⊎◌, inl,
  inr, ◌>>=◌, Option-cases, ◌≡◌, refl, ap, sym, All, some_inj, ◌∙◌, subst, if◌then◌else◌,
}
use controller_powered_by_di.Model
use controller_powered_by_di.Model.{FullyQualifiedResource, Service}
use controller_powered_by_di.Translation.Infra.{Infra}
use controller_powered_by_di.Translation.Settings.{DefaultTranslator}
use controller_powered_by_di.Translation.Translator.{DolphinEnvoyConfig, OwnerReference, translate}

-- The objects of the API of Kubernetes. A port of 32 bits with a sign is its residue, zero where it
-- is not set. A nil map is the empty list.
pub record NodeServicePort : Type 0 where
  pub name : String
  pub protocol : String
  pub port : ℕ
  pub node_port : ℕ

pub record IngressService : Type 0 where
  pub name : String
  pub namespace : String
  pub labels : List (String × String)
  pub annotations : List (String × String)
  pub owner : OwnerReference
  pub type : String
  pub ports : List NodeServicePort

pub record IngressEndpoints : Type 0 where
  pub name : String
  pub namespace : String
  pub labels : List (String × String)
  pub owner : OwnerReference
  pub ip : String
  pub port : ℕ

pub record DedicatedIngressTranslator : Type 0 where
  pub secrets_namespace : String
  pub enforce_https : Bool
  pub use_proxy_protocol : Bool
  pub idle_timeout_seconds : ℕ

abbrev pub dolphin_ingress_prefix : String
dolphin_ingress_prefix = "dolphin-ingress"

abbrev pub ingress_owner : FullyQualifiedResource → OwnerReference
ingress_owner r = record { kind = "Ingress"; name = r.name; uid = r.uid }

abbrev ingress_labels : List (String × String)
ingress_labels = ("dolphin.io/ingress", "true") ∷ []

abbrev node_port : Option ℕ → ℕ
node_port none = 0
node_port (some p) = p % 2 ^ 32

abbrev two_ports : ℕ → ℕ → List NodeServicePort
two_ports insecure secure =
    record { name = "http"; protocol = "TCP"; port = 80; node_port = insecure }
    ∷ (record { name = "https"; protocol = "TCP"; port = 443; node_port = secure } ∷ [])

-- The type of the service and its ports; a type that is neither of the two is warned of.
unfoldable pub type_and_ports : Option Service → String × List NodeServicePort
type_and_ports none = ("LoadBalancer", two_ports 0 0)
type_and_ports (some s) =
    if s.type == "NodePort"
    then ("NodePort", two_ports (node_port s.insecure_node_port) (node_port s.secure_node_port))
    else ("LoadBalancer", two_ports 0 0)

unfoldable pub get_ingress_service : FullyQualifiedResource → Option Service → IngressService
unfolding type_and_ports
get_ingress_service r service = record {
  name = dolphin_ingress_prefix <> ("-" <> r.name);
  namespace = r.namespace;
  labels = ingress_labels;
  annotations = [];
  owner = ingress_owner r;
  type = (type_and_ports service).0;
  ports = (type_and_ports service).1;
}

unfoldable pub get_ingress_endpoints : FullyQualifiedResource → IngressEndpoints
get_ingress_endpoints r = record {
  name = dolphin_ingress_prefix <> ("-" <> r.name);
  namespace = r.namespace;
  labels = ingress_labels;
  owner = ingress_owner r;
  ip = "192.192.192.192";
  port = 9999;
}

-- `Sources[0]`
first_resource : List FullyQualifiedResource → Option FullyQualifiedResource
first_resource [] = none
first_resource (s ∷ sources) = some s

-- The first source and the service of the first listener, of HTTP where there is one. `none` is
-- without listeners, and `some none` a panic.
unfoldable pub ingress_source :
    Model.Model → Option (Option (FullyQualifiedResource × Option Service))
unfolding first_resource
ingress_source m = elim m.http [
  | h ∷ _ ↦ some (do source ← first_resource h.sources; some (source, h.service))
  | [] ↦ elim m.tls [
    | t ∷ _ ↦ some (do source ← first_resource t.sources; some (source, t.service))
    | [] ↦ none
  ]
]

-- Where all listeners come from one resource, so does the translation.
pub ingress_source-of :
    (r : FullyQualifiedResource) (http : List Model.HttpListener) (tls : List Model.TlsListener)
    (tcp : List Model.TcpListener) (udp : List Model.UdpListener)
    → All (λ l. l.sources ≡ r ∷ []) http
    → All (λ l. l.sources ≡ r ∷ []) tls
    → (x : FullyQualifiedResource × Option Service)
    → ingress_source (record { http = http; tls = tls; tcp = tcp; udp = udp }) ≡ some (some x)
    → x.0 ≡ r
unfolding ingress_source first_resource
ingress_source-of r (h ∷ _) tls tcp udp own _ x e =
    sym (ap (λ p. p.0) (some_inj (rw own.0 at (some_inj e))))
ingress_source-of r [] (t ∷ _) tcp udp _ own x e =
    sym (ap (λ p. p.0) (some_inj (rw own.0 at (some_inj e))))
ingress_source-of r [] [] tcp udp _ _ x e = cc

unfoldable pub new_shared_ingress_translator :
    String → String → String → Bool → Bool → ℕ → DefaultTranslator
new_shared_ingress_translator name namespace secrets_namespace enforce_https use_proxy_protocol
      idle_timeout_seconds =
    record {
      name = name;
      namespace = namespace;
      secrets_namespace = secrets_namespace;
      enforce_https = enforce_https;
      use_proxy_protocol = use_proxy_protocol;
      host_name_suffix_match = false;
      idle_timeout_seconds = idle_timeout_seconds;
      ipv4_enabled = true;
      ipv6_enabled = false;
    }

abbrev pub TranslatedIngress : Type 0
TranslatedIngress = DolphinEnvoyConfig × (IngressService × IngressEndpoints)

-- What is made for a resource: the names are its own, and there are no annotations.
abbrev pub IsFor : FullyQualifiedResource → TranslatedIngress → Type 0
IsFor r t =
    (t.0.name ≡ dolphin_ingress_prefix <> ("-" <> (r.namespace <> ("-" <> r.name))))
    × (t.1.0.name ≡ dolphin_ingress_prefix <> ("-" <> r.name))
    × (t.1.0.namespace ≡ r.namespace)
    × (t.1.0.annotations ≡ [])
    × (t.1.1.name ≡ t.1.0.name)
    × (t.1.1.namespace ≡ t.1.0.namespace)

abbrev IsResultFor : FullyQualifiedResource → Option (String ⊎ TranslatedIngress) → Type 0
IsResultFor r none = Unit
IsResultFor r (some (inl e)) = Unit
IsResultFor r (some (inr t)) = IsFor r t

module _ (infra : Infra) (hops : ℕ) (d : DedicatedIngressTranslator) where
  abbrev ingress_translator : FullyQualifiedResource → DefaultTranslator
  unfolding new_shared_ingress_translator
  ingress_translator source =
      new_shared_ingress_translator (dolphin_ingress_prefix <> ("-" <> source.name))
        source.namespace d.secrets_namespace d.enforce_https d.use_proxy_protocol
        d.idle_timeout_seconds

  translate_dedicated :
      Model.Model → FullyQualifiedResource → Option Service → Option TranslatedIngress
  unfolding translate get_ingress_service get_ingress_endpoints
  translate_dedicated m source service = do
    config ← translate infra hops (ingress_translator source) m
    some (
      record config {
        name = dolphin_ingress_prefix <> ("-" <> (source.namespace <> ("-" <> source.name)));
      },
      (get_ingress_service source service, get_ingress_endpoints source),
    )

  -- `none` is a panic, and `inl` an error.
  unfoldable pub translate_ingress : Option Model.Model → Option (String ⊎ TranslatedIngress)
  unfolding ingress_source translate_dedicated ingress_translator
  translate_ingress none = some (inl "model source can't be empty")
  translate_ingress (some m) = elim (ingress_source m) [
    | none ↦ some (inl "model source can't be empty")
    | some found ↦ do
      source ← found
      result ← translate_dedicated m source.0 source.1
      some (inr result)
  ]

  IsResultFor-translate_ingress :
      (r : FullyQualifiedResource) (m : Model.Model)
      → ((x : FullyQualifiedResource × Option Service) → ingress_source m ≡ some (some x) → x.0 ≡ r)
      → IsResultFor r (translate_ingress (some m))
  unfolding translate_ingress translate_dedicated get_ingress_service get_ingress_endpoints
  IsResultFor-translate_ingress r m of_r = elim (Option-cases (ingress_source m)) [
    | inl absent ↦ rw (absent, IsResultFor) tt
    | inr (found, has) ↦ elim (Option-cases found) [
      | inl panics ↦ rw (has, panics, IsResultFor) tt
      | inr (source, at) ↦
          elim (Option-cases (translate infra hops (ingress_translator source.0) m)) [
            | inl panics ↦ rw (has, at, panics, IsResultFor) tt
            | inr (config, made) ↦
                rw (has, at, made, IsResultFor, of_r source (has ∙ ap some at))
                  (refl, refl, refl, refl, refl, refl)
          ]
    ]
  ]

  pub translate_ingress-IsFor :
      (r : FullyQualifiedResource) (m : Model.Model) (t : TranslatedIngress)
      → ((x : FullyQualifiedResource × Option Service) → ingress_source m ≡ some (some x) → x.0 ≡ r)
      → translate_ingress (some m) ≡ some (inr t)
      → IsFor r t
  translate_ingress-IsFor r m t of_r e =
      subst (IsResultFor r) e (IsResultFor-translate_ingress r m of_r)
