-- ===== src/Translation/Translator/Ports.antt =====
-- `getServices` of pkg/model/translation/translator.go: the ports of the service's listeners.
use controller_powered_by_di.Base.{
  ℕ, ◌<◌, ◌%◌, ◌^◌, Bool, false, ◌&&◌, ◌||◌, not, List, [], ◌∷◌, ◌≡◌, refl, ◌∙◌, fold, fold-keeps,
  any, num_eq, ltb, Bool-cases, inl, inr, arith, All,
}
use controller_powered_by_di.Base.StableSort.{stable_sort, any-stable_sort, All-stable_sort}
use controller_powered_by_di.Base.NumberSets.{
  IsStrict, IsDistinct, stable_sort-IsStrict, insert_new-IsDistinct, All-insert_new, any-insert_new,
}
use controller_powered_by_di.Model
use controller_powered_by_di.Translation.Settings.{DefaultTranslator}
use controller_powered_by_di.Translation.Translator.{add_port, all_ports, get_services}

add_port-IsDistinct : (a : ℕ) (xs : List ℕ) → IsDistinct xs → IsDistinct (add_port a xs)
unfolding add_port
add_port-IsDistinct a xs h = elim (Bool-cases (num_eq a 0)) [
  | inl zero ↦ rw zero h
  | inr port ↦ rw port (insert_new-IsDistinct (a % 2 ^ 16) xs h)
]

add_port-All :
    (a : ℕ) (xs : List ℕ) → All (λ p. p < 2 ^ 16) xs → All (λ p. p < 2 ^ 16) (add_port a xs)
unfolding add_port
add_port-All a xs h = elim (Bool-cases (num_eq a 0)) [
  | inl zero ↦ rw zero h
  | inr port ↦ rw port (All-insert_new (λ p. p < 2 ^ 16) (a % 2 ^ 16) xs (omega arith) h)
]

-- Whether a port of 32 bits gives the port of 16 bits.
abbrev pub gives : ℕ → ℕ → Bool
gives p a = not (num_eq a 0) && num_eq p (a % 2 ^ 16)

any-add_port :
    (p a : ℕ) (xs : List ℕ) → any (num_eq p) (add_port a xs) ≡ (any (num_eq p) xs || gives p a)
unfolding add_port
any-add_port p a xs = elim (Bool-cases (num_eq a 0)) [
  | inl zero ↦ rw zero (or_false (any (num_eq p) xs))
  | inr port ↦ rw port (any-insert_new p (a % 2 ^ 16) xs)
]
  where
    or_false : (b : Bool) → b ≡ (b || false)
    or_false b = ground arith

any-fold-add_port :
    (p : ℕ) (ps xs : List ℕ)
    → any (num_eq p) (fold add_port ps xs) ≡ (any (num_eq p) xs || any (gives p) ps)
any-fold-add_port p [] xs = ground arith
any-fold-add_port p (a ∷ ps) xs =
    any-fold-add_port p ps (add_port a xs) ∙ rw (any-add_port p a xs) (ground arith)

-- The service has one listener, with the translator's name and namespace. Its ports are strictly
-- ascending and below 2 ^ 16, and they are what the ports of the HTTP, TLS and TCP listeners that
-- are not zero leave when they are cut to 16 bits.
pub get_services-IsStrict :
    (t : DefaultTranslator) (m : Model.Model)
    → (ports : List ℕ) × (get_services t m
        ≡ record { name = t.name; namespace = t.namespace; ports = ports } ∷ [])
      × IsStrict ports
      × All (λ p. p < 2 ^ 16) ports
      × ((p : ℕ) → any (num_eq p) ports ≡ any (gives p) (all_ports m))
unfolding get_services
get_services-IsStrict t m =
    let set = fold add_port (all_ports m) [] in
    (
      stable_sort ltb set,
      refl,
      stable_sort-IsStrict set
          (fold-keeps IsDistinct add_port add_port-IsDistinct (all_ports m) [] tt),
      All-stable_sort ltb (λ p. p < 2 ^ 16) set
          (fold-keeps (All (λ p. p < 2 ^ 16)) add_port add_port-All (all_ports m) [] tt),
      λ p. any-stable_sort ltb (num_eq p) set ∙ any-fold-add_port p (all_ports m) [],
    )
