-- ===== src/BackendTls.antt =====
-- pkg/gateway_api/helpers/backendtlspolicy.go: which policy holds for a section of a service.
pub mod Choice
pub mod Laws
pub mod Order
pub mod Winner
use controller_powered_by_di.Base.{
  ◌<>◌, ℕ, String, Bool, true, false, ◌&&◌, not, Option, none, some, List, [], ◌∷◌, ◌++◌, ◌==◌,
  ◌>>=◌, if◌then◌else◌, deref_or, ltb,
}
use controller_powered_by_di.Base.Sort.{text_lt}
use controller_powered_by_di.Base.Assoc.{find, upsert}
use controller_powered_by_di.Api.{NamespacedName}
use controller_powered_by_di.Helpers.Kinds.{kind_service, core_group_name}

-- `LocalPolicyTargetReferenceWithSectionName` of the API.
pub record TargetRef : Type 0 where
  pub group : String
  pub kind : String
  pub name : String
  pub section_name : Option String

-- The fields of a `BackendTLSPolicy` that the lookup reads. A creation time is in seconds.
pub record Policy : Type 0 where
  pub key : NamespacedName
  pub created : ℕ
  pub target_refs : List TargetRef

unfoldable pub is_service_target_ref : TargetRef → Bool
is_service_target_ref tr = tr.kind == kind_service && tr.group == core_group_name

-- `==` on names, and their text.
unfoldable pub name_eq : NamespacedName → NamespacedName → Bool
name_eq a b = a.namespace == b.namespace && a.name == b.name

abbrev pub name_text : NamespacedName → String
name_text k = k.namespace <> ("/" <> k.name)

-- The maps by section, and the one by the name of the policy.
pub record Collection : Type 0 where
  pub valid : List (String × Policy)
  pub invalid : List (String × Policy)
  pub conflicted : List (NamespacedName × Policy)

abbrev no_policies : Collection
no_policies = record { valid = []; invalid = []; conflicted = [] }

abbrev pub ServiceMap : Type 0
ServiceMap = List (NamespacedName × Collection)

unfoldable pub upsert_valid_policy : String → Policy → Collection → Collection
unfolding upsert
upsert_valid_policy section p c = record c { valid = upsert (λ a b. a == b) section p c.valid }

unfoldable pub upsert_conflicted_policy : NamespacedName → Policy → Collection → Collection
unfolding upsert name_eq
upsert_conflicted_policy key p c = record c { conflicted = upsert name_eq key p c.conflicted }

-- The current policy wins, or the existing one stays.
abbrev wins : String → Policy → Policy → Collection → Collection
unfolding upsert_valid_policy upsert_conflicted_policy
wins section existing current c =
    upsert_valid_policy section current (upsert_conflicted_policy existing.key existing c)

abbrev loses : Policy → Collection → Collection
unfolding upsert_conflicted_policy
loses current c = upsert_conflicted_policy current.key current c

-- Against the valid policy of the section, if there is one.
unfoldable pub resolve : Option Policy → String → Policy → Collection → Collection
unfolding name_eq text_lt wins loses
resolve none section current c = upsert_valid_policy section current c
resolve (some existing) section current c =
    if name_eq current.key existing.key
    then c
    else if ltb current.created existing.created
    then wins section existing current c
    else if ltb existing.created current.created
    then loses current c
    else if text_lt (name_text current.key) (name_text existing.key)
    then wins section existing current c
    else loses current c

abbrev pub service_of : Policy → TargetRef → NamespacedName
service_of p ref = record { namespace = p.key.namespace; name = ref.name }

abbrev pub section_of : TargetRef → String
section_of ref = deref_or ref.section_name ""

abbrev in_collection : Option Collection → String → Policy → Collection
unfolding resolve find
in_collection none section p = upsert_valid_policy section p no_policies
in_collection (some c) section p = resolve (find (λ a b. a == b) section c.valid) section p c

-- The body of the inner loop.
unfoldable pub add_target : Policy → TargetRef → ServiceMap → ServiceMap
unfolding is_service_target_ref in_collection
add_target p ref m =
    if is_service_target_ref ref
    then upsert name_eq (service_of p ref)
        (in_collection (find name_eq (service_of p ref) m) (section_of ref) p) m
    else m

unfoldable pub add_targets : Policy → List TargetRef → ServiceMap → ServiceMap
unfolding add_target
add_targets p [] m = m
add_targets p (ref ∷ refs) m = add_targets p refs (add_target p ref m)

unfoldable pub lookup_loop : List Policy → ServiceMap → ServiceMap
unfolding add_targets
lookup_loop [] m = m
lookup_loop (p ∷ policies) m = lookup_loop policies (add_targets p p.target_refs m)

unfoldable pub build_backend_tls_policy_lookup : List Policy → ServiceMap
unfolding lookup_loop
build_backend_tls_policy_lookup policies = lookup_loop policies []
