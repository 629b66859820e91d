-- ===== src/Base/NumberSets.antt =====
-- Sets of numbers, as Go keeps them in the keys of a map and lists them in order.
use controller_powered_by_di.Base.Tests.{if◌then◌else◌, Bool-cases, num_eq, ltb}
use controller_powered_by_di.Base.Lists.{All, All-map, All-append, any, any-append}
use controller_powered_by_di.Base.StableSort.{
  insert_by, stable_sort, All-insert_by, any-stable_sort,
}
use mathlib.Core.Path.{◌≡◌, refl, ◌∙◌, ap}
use mathlib.Core.Logic.{inl, inr}
use mathlib.Core.Bool.{Bool, true, false, ◌||◌}
use mathlib.Core.List.{List, [], ◌∷◌, ◌++◌}
use native.Mathlib.Omega.{arith}
use Prim.Native.Nat.{ℕ, ◌<◌}

-- `set[a] = struct{}{}`
unfoldable pub insert_new : ℕ → List ℕ → List ℕ
insert_new a xs = if any (num_eq a) xs then xs else xs ++ a ∷ []

-- Numbers that all differ are strictly ascending once sorted.
abbrev pub IsStrict : List ℕ → Type 0
IsStrict [] = Unit
IsStrict (a ∷ xs) = All (λ b. a < b) xs × IsStrict xs

abbrev pub IsDistinct : List ℕ → Type 0
IsDistinct [] = Unit
IsDistinct (a ∷ xs) = (any (num_eq a) xs ≡ false) × IsDistinct xs

insert_by-IsStrict :
    (a : ℕ) (xs : List ℕ) → any (num_eq a) xs ≡ false → IsStrict xs → IsStrict (insert_by ltb a xs)
unfolding insert_by
insert_by-IsStrict a [] new h = (tt, tt)
insert_by-IsStrict a (b ∷ xs) new h = elim (Bool-cases (ltb b a)) [
  | inl lt ↦ rw lt (
    All-insert_by ltb (λ c. b < c) a xs (ground arith) h.0,
    insert_by-IsStrict a xs (ground arith) h.1,
  )
  | inr ge ↦
      let before : a < b = ground arith in
      rw ge ((before, All-map (λ c k. omega (arith, before, k)) xs h.0), h)
]

pub stable_sort-IsStrict : (xs : List ℕ) → IsDistinct xs → IsStrict (stable_sort ltb xs)
unfolding stable_sort
stable_sort-IsStrict [] h = tt
stable_sort-IsStrict (a ∷ xs) h =
    insert_by-IsStrict a (stable_sort ltb xs) (any-stable_sort ltb (num_eq a) xs ∙ h.0)
      (stable_sort-IsStrict xs h.1)

append-IsDistinct :
    (a : ℕ) (xs : List ℕ) → any (num_eq a) xs ≡ false → IsDistinct xs → IsDistinct (xs ++ a ∷ [])
append-IsDistinct a [] new h = (refl, tt)
append-IsDistinct a (x ∷ xs) new h = (
  any-append (num_eq x) xs (a ∷ []) ∙ ground (arith, h.0),
  append-IsDistinct a xs (ground arith) h.1,
)

pub insert_new-IsDistinct : (a : ℕ) (xs : List ℕ) → IsDistinct xs → IsDistinct (insert_new a xs)
unfolding insert_new
insert_new-IsDistinct a xs h = elim (Bool-cases (any (num_eq a) xs)) [
  | inl old ↦ rw old h
  | inr new ↦ rw new (append-IsDistinct a xs new h)
]

pub All-insert_new :
    (P : ℕ → Type 0) (a : ℕ) (xs : List ℕ) → P a → All P xs → All P (insert_new a xs)
unfolding insert_new
All-insert_new P a xs p h = elim (Bool-cases (any (num_eq a) xs)) [
  | inl old ↦ rw old h
  | inr new ↦ rw new (All-append P xs (a ∷ []) h (p, tt))
]

or_same : (b c : Bool) → (c ≡ true → b ≡ true) → b ≡ (b || c)
or_same true c h = refl
or_same false true h = h refl
or_same false false h = refl

or_last : (b : Bool) → (b || false) ≡ b
or_last b = ground arith

num_eq_sound : (a b : ℕ) → num_eq a b ≡ true → a ≡ b
num_eq_sound a b h = ground arith

pub any-insert_new :
    (p a : ℕ) (xs : List ℕ) → any (num_eq p) (insert_new a xs) ≡ (any (num_eq p) xs || num_eq p a)
unfolding insert_new
any-insert_new p a xs = elim (Bool-cases (any (num_eq a) xs)) [
  | inl old ↦ rw old (
      or_same (any (num_eq p) xs) (num_eq p a)
        (λ same. ap (λ q. any (num_eq q) xs) (num_eq_sound p a same) ∙ old))
  | inr new ↦
      rw new (
        any-append (num_eq p) xs (a ∷ []) ∙ ap (λ b. any (num_eq p) xs || b) (or_last (num_eq p a)))
]
