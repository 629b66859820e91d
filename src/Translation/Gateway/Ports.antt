-- ===== src/Translation/Gateway/Ports.antt =====
-- pkg/model/translation/gateway-api/translator.go, `getService`: the ports of a Gateway's service.
use controller_powered_by_di.Base.{
  ℕ, ◌<◌, String, ◌||◌, Option, List, [], ◌∷◌, ◌≡◌, ◌≢◌, refl, ◌∙◌, ap, sym, map, fold, fold-keeps,
  any, num_eq, ltb, arith, All,
}
use controller_powered_by_di.Base.Decimal.{itoa, itoa_injective}
use controller_powered_by_di.Base.Text.{trim_prefix, trim_prefix-append}
use controller_powered_by_di.Base.StableSort.{any-stable_sort}
use controller_powered_by_di.Base.NumberSets.{
  IsStrict, IsDistinct, stable_sort-IsStrict, insert_new, insert_new-IsDistinct, any-insert_new,
}
use controller_powered_by_di.Model.{FullyQualifiedResource}
use controller_powered_by_di.Translation.Gateway.{
  ServicePort, Labels, GatewayClassConfig, sorted_ports, service_port, get_service,
}

sorted_ports-IsStrict : (ports : List ℕ) → IsStrict (sorted_ports ports)
unfolding sorted_ports
sorted_ports-IsStrict ports =
    stable_sort-IsStrict _ (fold-keeps IsDistinct insert_new insert_new-IsDistinct ports [] tt)

-- Ports of different numbers have different names.
service_port-name : (p q : ℕ) → p < q → (service_port p).name ≢ (service_port q).name
unfolding service_port
service_port-name p q lt e =
    let same = itoa_injective p q (
      sym (trim_prefix-append "port-" (itoa p))
      ∙ ap (λ s. trim_prefix s "port-") e
      ∙ trim_prefix-append "port-" (itoa q)) in
    omega (arith, lt, same)

-- No two ports have one name.
abbrev pub IsUniquelyNamed : List ServicePort → Type 0
IsUniquelyNamed [] = Unit
IsUniquelyNamed (p ∷ ports) = All (λ q. p.name ≢ q.name) ports × IsUniquelyNamed ports

named : (ps : List ℕ) → IsStrict ps → IsUniquelyNamed (map service_port ps)
named [] h = tt
named (p ∷ ps) h = (each ps h.0, named ps h.1)
  where
    each :
        (qs : List ℕ)
        → All (λ q. p < q) qs
        → All (λ q. (service_port p).name ≢ q.name) (map service_port qs)
    each [] _ = tt
    each (q ∷ qs) k = (service_port-name p q k.0, each qs k.1)

any-fold-insert_new :
    (p : ℕ) (ps xs : List ℕ)
    → any (num_eq p) (fold insert_new ps xs) ≡ (any (num_eq p) xs || any (num_eq p) ps)
any-fold-insert_new p [] xs = ground arith
any-fold-insert_new p (a ∷ ps) xs =
    any-fold-insert_new p ps (insert_new a xs) ∙ rw (any-insert_new p a xs) (ground arith)

-- No two ports of a Gateway's service have the same name. The ports are made of a strictly
-- ascending list of numbers, which are those of the listeners.
pub get_service-IsUniquelyNamed :
    (hash : String → String) (r : FullyQualifiedResource) (ports : List ℕ)
    (labels annotations : Labels) (cfg : Option GatewayClassConfig)
    → let service = get_service hash r ports labels annotations cfg in
      IsUniquelyNamed service.ports
      × ((numbers : List ℕ) × (service.ports ≡ map service_port numbers)
          × IsStrict numbers
          × ((p : ℕ) → any (num_eq p) numbers ≡ any (num_eq p) ports))
unfolding get_service sorted_ports
get_service-IsUniquelyNamed hash r ports labels annotations cfg = (
  named (sorted_ports ports) (sorted_ports-IsStrict ports),
  (sorted_ports ports, refl, sorted_ports-IsStrict ports, λ p. sorted_ports-any p),
)
  where
    sorted_ports-any : (p : ℕ) → any (num_eq p) (sorted_ports ports) ≡ any (num_eq p) ports
    sorted_ports-any p =
        any-stable_sort ltb (num_eq p) (fold insert_new ports []) ∙ any-fold-insert_new p ports []
