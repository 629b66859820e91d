-- ===== src/Base/Lists.antt =====
-- Lists: tests of Go's loops as functions, and predicates by recursion.
use Prim.Native.Nat.{ℕ, suc, ◌+◌}
use mathlib.Core.Path.{◌≡◌, refl, sym, subst}
use mathlib.Core.Bool.{Bool, true, false, ◌&&◌, ◌||◌}
use mathlib.Core.Option.{Option, some}
use mathlib.Core.List.{List, [], ◌∷◌, ◌++◌, map}
use native.Mathlib.Omega.{arith}
use mathlib.Core.Logic.{◌↔◌, inl, inr}
use controller_powered_by_di.Base.Tests.{if◌then◌else◌, ◌>>=◌, >>=-eq-some, some_inj, Bool-cases}

module _ {ℓ} {A : Type ℓ} where
  abbrev pub length : List A → ℕ
  length [] = 0
  length (x ∷ xs) = suc (length xs)

  pub length-append : (xs ys : List A) → length (xs ++ ys) ≡ length xs + length ys
  length-append [] ys = omega arith
  length-append (x ∷ xs) ys = omega (arith, length-append xs ys)

  -- `len(xs) == 0`
  abbrev pub is_nil : List A → Bool
  is_nil [] = true
  is_nil (_ ∷ _) = false

  -- A loop that sets a flag, or returns true, where the test holds.
  abbrev pub any : (A → Bool) → List A → Bool
  any p [] = false
  any p (x ∷ xs) = p x || any p xs

  abbrev pub all : (A → Bool) → List A → Bool
  all p [] = true
  all p (x ∷ xs) = p x && all p xs

  -- A loop that appends the items that pass the test.
  abbrev pub keep : (A → Bool) → List A → List A
  keep p [] = []
  keep p (x ∷ xs) = let rest = keep p xs in if p x then x ∷ rest else rest

  pub any-append : (p : A → Bool) (xs ys : List A) → any p (xs ++ ys) ≡ (any p xs || any p ys)
  any-append p [] ys = refl
  any-append p (x ∷ xs) ys = ground (arith, any-append p xs ys)

module _ {ℓ κ} {A : Type ℓ} {M : Type κ} where
  -- A loop that changes a state.
  abbrev pub fold : (A → M → M) → List A → M → M
  fold f [] m = m
  fold f (x ∷ xs) m = fold f xs (f x m)

module _ {ℓ κ} {A : Type ℓ} {B : Type κ} where
  -- A loop that appends several items for each item.
  abbrev pub gather : (A → List B) → List A → List B
  gather f [] = []
  gather f (x ∷ xs) = f x ++ gather f xs

  -- The same where an item may panic.
  abbrev pub traverse : (A → Option B) → List A → Option (List B)
  traverse f [] = some []
  traverse f (x ∷ xs) = do y ← f x; ys ← traverse f xs; some (y ∷ ys)

  abbrev pub gather? : (A → Option (List B)) → List A → Option (List B)
  gather? f [] = some []
  gather? f (x ∷ xs) = do y ← f x; ys ← gather? f xs; some (y ++ ys)

-- Every item has the property.
module _ {ℓ κ} {A : Type ℓ} (P : A → Type κ) where
  abbrev pub All : List A → Type κ
  All [] = Unit
  All (x ∷ xs) = P x × All xs

  -- Some item has it.
  pub data Any : List A → Type (ℓ ⊔ κ) where
    here : {x : A} {xs : List A} → P x → Any (x ∷ xs)
    there : {x : A} {xs : List A} → Any xs → Any (x ∷ xs)

module _ {ℓ κ} {A : Type ℓ} (P : A → Type κ) where
  pub All-append : (xs ys : List A) → All P xs → All P ys → All P (xs ++ ys)
  All-append [] ys _ k = k
  All-append (x ∷ xs) ys (p, h) k = (p, All-append xs ys h k)

  pub All-keep : (t : A → Bool) (xs : List A) → All P xs → All P (keep t xs)
  All-keep t [] _ = tt
  All-keep t (x ∷ xs) (p, h) = elim (t x) as (λ b. All P (if b then x ∷ keep t xs else keep t xs)) [
    | true ↦ (p, All-keep t xs h)
    | false ↦ All-keep t xs h
  ]

module _ {ℓ κ} {A : Type ℓ} {P Q : A → Type κ} where
  pub All-map : (f : (a : A) → P a → Q a) (xs : List A) → All P xs → All Q xs
  All-map f [] _ = tt
  All-map f (x ∷ xs) (p, h) = (f x p, All-map f xs h)

module _ {ℓ κ μ} {A : Type ℓ} {B : Type κ} (P : B → Type μ) (f : A → List B) where
  pub All-gather : ((a : A) → All P (f a)) → (xs : List A) → All P (gather f xs)
  All-gather h [] = tt
  All-gather h (x ∷ xs) = All-append P (f x) (gather f xs) (h x) (All-gather h xs)

module _ {ℓ} {A : Type ℓ} (p : A → Bool) where
  pub any_sound : (xs : List A) → any p xs ≡ true → Any (λ x. p x ≡ true) xs
  any_sound [] h = cc
  any_sound (x ∷ xs) h = elim (Bool-cases (p x)) [
    | inl yes_x ↦ here yes_x
    | inr no_x ↦ there (any_sound xs (rw no_x at h))
  ]

  pub any_complete : (xs : List A) → Any (λ x. p x ≡ true) xs → any p xs ≡ true
  any_complete [] h = elim h [ ]
  any_complete (x ∷ xs) (here e) = rw e refl
  any_complete (x ∷ xs) (there h) = ground (arith, any_complete xs h)

  pub any_iff : (xs : List A) → (any p xs ≡ true) ↔ Any (λ x. p x ≡ true) xs
  any_iff xs = (any_sound xs, any_complete xs)

module _ {ℓ κ} {A : Type ℓ} {P Q : A → Type κ} where
  pub Any-map : (f : (a : A) → P a → Q a) {xs : List A} → Any P xs → Any Q xs
  Any-map f (here p) = here (f _ p)
  Any-map f (there h) = there (Any-map f h)

-- What holds of all that the items give holds of all that a loop which may panic gathers.
module _ {ℓ κ μ} {A : Type ℓ} {B : Type κ} (P : B → Type μ) where
  pub All-gather? :
      (f : A → Option (List B))
      → ((a : A) (ys : List B) → f a ≡ some ys → All P ys)
      → (xs : List A) (ys : List B) → gather? f xs ≡ some ys
      → All P ys
  All-gather? f h [] ys e = rw (sym (some_inj e)) tt
  All-gather? f h (x ∷ xs) ys e =
      let (front, e1, e2) = >>=-eq-some (f x) _ e in
      let (back, e3, e4) = >>=-eq-some (gather? f xs) _ e2 in
      rw (sym (some_inj e4)) (All-append P front back (h x front e1) (All-gather? f h xs back e3))

  pub All-traverse :
      (f : A → Option B)
      → ((a : A) (y : B) → f a ≡ some y → P y)
      → (xs : List A) (ys : List B) → traverse f xs ≡ some ys
      → All P ys
  All-traverse f h [] ys e = rw (sym (some_inj e)) tt
  All-traverse f h (x ∷ xs) ys e =
      let (y, e1, e2) = >>=-eq-some (f x) _ e in
      let (rest, e3, e4) = >>=-eq-some (traverse f xs) _ e2 in
      rw (sym (some_inj e4)) (h x y e1, All-traverse f h xs rest e3)

-- A loop whose items do not panic does not.
module _ {ℓ κ μ} {A : Type ℓ} {B : Type κ} (P : A → Type μ) where
  pub gather?-total :
      (f : A → Option (List B))
      → ((a : A) → P a → (ys : List B) × (f a ≡ some ys))
      → (xs : List A) → All P xs
      → (ys : List B) × (gather? f xs ≡ some ys)
  gather?-total f h [] _ = ([], refl)
  gather?-total f h (x ∷ xs) (p, ps) =
      let (front, e) = h x p in
      let (back, e') = gather?-total f h xs ps in (front ++ back, rw (e, e') refl)

  pub traverse-total :
      (f : A → Option B)
      → ((a : A) → P a → (y : B) × (f a ≡ some y))
      → (xs : List A) → All P xs
      → (ys : List B) × (traverse f xs ≡ some ys)
  traverse-total f h [] _ = ([], refl)
  traverse-total f h (x ∷ xs) (p, ps) =
      let (y, e) = h x p in let (rest, e') = traverse-total f h xs ps in (y ∷ rest, rw (e, e') refl)

-- What a loop's steps keep, and what one of its steps brings about.
module _ {ℓ κ μ} {A : Type ℓ} {M : Type κ} (P : M → Type μ) (f : A → M → M)
    (keeps : (a : A) (m : M) → P m → P (f a m)) where
  pub fold-keeps : (xs : List A) (m : M) → P m → P (fold f xs m)
  fold-keeps [] m h = h
  fold-keeps (x ∷ xs) m h = fold-keeps xs (f x m) (keeps x m h)

  pub fold-reaches :
      {a : A}
      → ((m : M) → P (f a m))
      → {xs : List A} → Any (λ x. x ≡ a) xs
      → (m : M) → P (fold f xs m)
  fold-reaches step {xs = []} h m = elim h [ ]
  fold-reaches step {xs = x ∷ xs} (here e) m =
      fold-keeps xs (f x m) (subst (λ y. P (f y m)) (sym e) (step m))
  fold-reaches step {xs = x ∷ xs} (there h) m = fold-reaches step h (f x m)

module _ {κ ν} {B : Type κ} (Q : B → Type ν) where
  pub Any-append_left : {xs : List B} (ys : List B) → Any Q xs → Any Q (xs ++ ys)
  Any-append_left ys (here q) = here q
  Any-append_left ys (there h) = there (Any-append_left ys h)

  pub Any-append_right : (xs : List B) {ys : List B} → Any Q ys → Any Q (xs ++ ys)
  Any-append_right [] h = h
  Any-append_right (x ∷ xs) h = there (Any-append_right xs h)

module _ {ℓ κ μ ν} {A : Type ℓ} {B : Type κ} {P : A → Type μ} (Q : B → Type ν)
    (f : A → List B) where
  pub Any-gather : ((a : A) → P a → Any Q (f a)) → {xs : List A} → Any P xs → Any Q (gather f xs)
  Any-gather step {xs = []} h = elim h [ ]
  Any-gather step {xs = x ∷ xs} (here p) = Any-append_left Q (gather f xs) (step x p)
  Any-gather step {xs = x ∷ xs} (there h) = Any-append_right Q (f x) (Any-gather step h)

module _ {ℓ κ μ ν} {A : Type ℓ} {B : Type κ} {P : A → Type μ} (Q : B → Type ν) (f : A → B) where
  pub Any-of-map : ((a : A) → P a → Q (f a)) → {xs : List A} → Any P xs → Any Q (map f xs)
  Any-of-map step (here p) = here (step _ p)
  Any-of-map step (there h) = there (Any-of-map step h)

module _ {ℓ κ μ} {A : Type ℓ} {P : A → Type κ} {Q : A → Type μ} where
  pub All-Any : {xs : List A} → All P xs → Any Q xs → Any (λ x. P x × Q x) xs
  All-Any {xs = []} ps h = elim h [ ]
  All-Any {xs = x ∷ xs} ps (here q) = here (ps.0, q)
  All-Any {xs = x ∷ xs} ps (there h) = there (All-Any ps.1 h)

-- An item that passes a test is found by it.
module _ {ℓ} {A : Type ℓ} where
  pub All-any : (xs : List A) → All (λ x. (p : A → Bool) → p x ≡ true → any p xs ≡ true) xs
  All-any [] = tt
  All-any (x ∷ xs) =
      (λ p h. rw h refl, All-map (λ y found p h. ground (arith, found p h)) xs (All-any xs))
