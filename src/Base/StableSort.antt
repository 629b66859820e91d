-- ===== src/Base/StableSort.antt =====
-- `sort.Stable` by a test of which item comes first. The loop is an insertion sort here; for an
-- order as below, an ordered list that keeps the order of equal items is the only one, so every
-- stable sort returns it.
use mathlib.Core.Path.{◌≡◌, refl, ◌∙◌, sym}
use mathlib.Core.Logic.{inl, inr}
use mathlib.Core.Bool.{Bool, true, false, ◌||◌}
use mathlib.Core.List.{List, [], ◌∷◌, Perm}
use mathlib.Core.List.Perm
use native.Mathlib.Omega.{arith}
use Prim.Native.Nat.{ℕ}
use controller_powered_by_di.Base.Tests.{if◌then◌else◌, Bool-cases, num_eq, ltb}
use controller_powered_by_di.Base.Lists.{All, All-map, All-keep, any, keep}

module _ {ℓ} {A : Type ℓ} (less : A → A → Bool) where
  unfoldable pub insert_by : A → List A → List A
  insert_by a [] = a ∷ []
  insert_by a (b ∷ xs) = if less b a then b ∷ insert_by a xs else a ∷ (b ∷ xs)

  unfoldable pub stable_sort : List A → List A
  unfolding insert_by
  stable_sort [] = []
  stable_sort (a ∷ xs) = insert_by a (stable_sort xs)

  any-insert_by : (p : A → Bool) (a : A) (xs : List A) → any p (insert_by a xs) ≡ any p (a ∷ xs)
  unfolding insert_by
  any-insert_by p a [] = refl
  any-insert_by p a (b ∷ xs) = elim (Bool-cases (less b a)) [
    | inr ge ↦ rw ge refl
    | inl lt ↦ rw lt (rw (any-insert_by p a xs) (swap_or (p b) (p a) (any p xs)))
  ]
    where
      swap_or : (x y z : Bool) → (x || (y || z)) ≡ (y || (x || z))
      swap_or x y z = ground arith

  pub any-stable_sort : (p : A → Bool) (xs : List A) → any p (stable_sort xs) ≡ any p xs
  unfolding stable_sort
  any-stable_sort p [] = refl
  any-stable_sort p (a ∷ xs) = any-insert_by p a (stable_sort xs) ∙ rw (any-stable_sort p xs) refl

  -- No item comes before an earlier one.
  abbrev pub IsOrdered : List A → Type ℓ
  IsOrdered [] = Unit
  IsOrdered (a ∷ xs) = All (λ b. less b a ≡ false) xs × IsOrdered xs

  -- A strict weak order, by its tests.
  pub record IsWeakOrder : Type ℓ where
    pub asym : (a b : A) → less a b ≡ true → less b a ≡ false
    pub not_trans : (a b c : A) → less a b ≡ false → less b c ≡ false → less a c ≡ false

  module _ {κ} (P : A → Type κ) where
    pub All-insert_by : (a : A) (xs : List A) → P a → All P xs → All P (insert_by a xs)
    unfolding insert_by
    All-insert_by a [] p h = (p, tt)
    All-insert_by a (b ∷ xs) p h = elim (Bool-cases (less b a)) [
      | inl lt ↦ rw lt (h.0, All-insert_by a xs p h.1)
      | inr ge ↦ rw ge (p, h)
    ]

    pub All-stable_sort : (xs : List A) → All P xs → All P (stable_sort xs)
    unfolding stable_sort
    All-stable_sort [] h = tt
    All-stable_sort (a ∷ xs) h = All-insert_by a (stable_sort xs) h.0 (All-stable_sort xs h.1)

  insert_by-perm : (a : A) (xs : List A) → Perm (insert_by a xs) (a ∷ xs)
  unfolding insert_by
  insert_by-perm a [] = Perm.refl _
  insert_by-perm a (b ∷ xs) = elim (Bool-cases (less b a)) [
    | inl lt ↦ rw lt (Perm.trans (Perm.cons b (insert_by-perm a xs)) (Perm.swap a b xs))
    | inr ge ↦ rw ge (Perm.refl _)
  ]

  pub stable_sort-perm : (xs : List A) → Perm (stable_sort xs) xs
  unfolding stable_sort
  stable_sort-perm [] = Perm.refl _
  stable_sort-perm (a ∷ xs) =
      Perm.trans (insert_by-perm a (stable_sort xs)) (Perm.cons a (stable_sort-perm xs))

  module _ (order : IsWeakOrder) where
    insert_by-IsOrdered : (a : A) (xs : List A) → IsOrdered xs → IsOrdered (insert_by a xs)
    unfolding insert_by
    insert_by-IsOrdered a [] h = (tt, tt)
    insert_by-IsOrdered a (b ∷ xs) h = elim (Bool-cases (less b a)) [
      | inl lt ↦ rw lt (
        All-insert_by (λ c. less c b ≡ false) a xs (order.asym b a lt) h.0,
        insert_by-IsOrdered a xs h.1,
      )
      | inr ge ↦ rw ge ((ge, All-map (λ c k. order.not_trans c b a k ge) xs h.0), h)
    ]

    pub stable_sort-IsOrdered : (xs : List A) → IsOrdered (stable_sort xs)
    unfolding stable_sort
    stable_sort-IsOrdered [] = tt
    stable_sort-IsOrdered (a ∷ xs) =
        insert_by-IsOrdered a (stable_sort xs) (stable_sort-IsOrdered xs)

  insert_by-first : (a : A) (xs : List A) → All (λ b. less b a ≡ false) xs → insert_by a xs ≡ a ∷ xs
  unfolding insert_by
  insert_by-first a [] h = refl
  insert_by-first a (b ∷ xs) h = rw h.0 refl

  module _ (order : IsWeakOrder) (p : A → Bool) where
    insert_by-kept :
        (a : A) (xs : List A)
        → p a ≡ true
        → IsOrdered xs
        → keep p (insert_by a xs) ≡ insert_by a (keep p xs)
    unfolding insert_by
    insert_by-kept a [] pa h = rw pa refl
    insert_by-kept a (b ∷ xs) pa h = elim (Bool-cases (less b a)) [
      | inr ge ↦
          rw (ge, pa)
            (sym (
              insert_by-first a (keep p (b ∷ xs))
                (All-keep _ p (b ∷ xs) (ge, All-map (λ c k. order.not_trans c b a k ge) xs h.0))))
      | inl lt ↦ elim (Bool-cases (p b)) [
        | inl pb ↦ rw (lt, pb, insert_by-kept a xs pa h.1, lt) refl
        | inr out ↦ rw (lt, out, insert_by-kept a xs pa h.1) refl
      ]
    ]

    insert_by-dropped : (a : A) (xs : List A) → p a ≡ false → keep p (insert_by a xs) ≡ keep p xs
    unfolding insert_by
    insert_by-dropped a [] pa = rw pa refl
    insert_by-dropped a (b ∷ xs) pa = elim (Bool-cases (less b a)) [
      | inr ge ↦ rw (ge, pa) refl
      | inl lt ↦ rw (lt, insert_by-dropped a xs pa) refl
    ]

    -- Sorting what a test keeps is keeping it of what is sorted.
    pub stable_sort-keep : (xs : List A) → stable_sort (keep p xs) ≡ keep p (stable_sort xs)
    unfolding stable_sort
    stable_sort-keep [] = refl
    stable_sort-keep (a ∷ xs) = elim (Bool-cases (p a)) [
      | inl pa ↦
          rw (pa, stable_sort-keep xs)
            (sym (insert_by-kept a (stable_sort xs) pa (stable_sort-IsOrdered order xs)))
      | inr out ↦ rw (out, stable_sort-keep xs) (sym (insert_by-dropped a (stable_sort xs) out))
    ]

  -- Items that do not come before one another keep their order.
  module _ (p : A → Bool) (level : (a b : A) → p a ≡ true → p b ≡ true → less b a ≡ false) where
    keep-insert_by : (a : A) (xs : List A) → keep p (insert_by a xs) ≡ keep p (a ∷ xs)
    unfolding insert_by
    keep-insert_by a [] = refl
    keep-insert_by a (b ∷ xs) = elim (Bool-cases (less b a)) [
      | inr ge ↦ rw ge refl
      | inl lt ↦
          rw lt (rw (keep-insert_by a xs) (swapped (p a) (p b) (λ pa pb. cc (lt, level a b pa pb))))
    ]
      where
        swapped :
            (pa pb : Bool)
            → (pa ≡ true → pb ≡ true → ⊥)
            → (if pb
                then b ∷ (if pa then a ∷ keep p xs else keep p xs)
                else if pa
                then a ∷ keep p xs
                else keep p xs)
              ≡ (if pa
                  then a ∷ (if pb then b ∷ keep p xs else keep p xs)
                  else if pb
                  then b ∷ keep p xs
                  else keep p xs)
        swapped true true both = elim (both refl refl) [ ]
        swapped true false both = refl
        swapped false true both = refl
        swapped false false both = refl

    pub keep-stable_sort : (xs : List A) → keep p (stable_sort xs) ≡ keep p xs
    unfolding stable_sort
    keep-stable_sort [] = refl
    keep-stable_sort (a ∷ xs) = keep-insert_by a (stable_sort xs) ∙ rw (keep-stable_sort xs) refl

-- A larger number comes first, and then what the other test says.
module _ {ℓ} {A : Type ℓ} (key : A → ℕ) where
  abbrev pub by_largest : (A → A → Bool) → A → A → Bool
  by_largest less a b = if num_eq (key a) (key b) then less a b else ltb (key b) (key a)

  pub by_largest-IsWeakOrder :
      (less : A → A → Bool) → IsWeakOrder less → IsWeakOrder (by_largest less)
  by_largest-IsWeakOrder less order = record {
    asym = λ a b h. ground (arith, order.asym a b);
    not_trans = λ a b c h k. ground (arith, order.not_trans a b c);
  }

pub never-IsWeakOrder {ℓ} : {A : Type ℓ} → IsWeakOrder {A = A} (λ a b. false)
never-IsWeakOrder = record { asym = λ a b h. refl; not_trans = λ a b c h k. refl }
