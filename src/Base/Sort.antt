-- ===== src/Base/Sort.antt =====
-- `sort.Strings`: the ascending order of a list of texts. The loop of the sort is an insertion
-- sort here; equal texts cannot be told apart, so every sort returns this list.
use Prim.Native.Nat.{ℕ, Ordering, compare as compare_ℕ}
use Prim.Native.Char.{code}
use Prim.Native.String.{String, [], ◌∷◌, compare, then as lexical}
use Prim.Native.String.compare as compare_text
use mathlib.Core.Path.{◌≡◌, refl, ◌∙◌}
use mathlib.Core.Logic.{◌↔◌, inl, inr, ∥∥₁_elim}
use mathlib.Core.Bool.{Bool, true, false, ◌||◌}
use mathlib.Core.List.{List, Perm, Permᴰ}
use mathlib.Core.List.Perm
use mathlib.Core.HLevel.{hedberg}
use mathlib.Core.Bool.{Bool-discrete}
use mathlib.Core.Logic.{dite}
use text.Mathlib.Text.{◌==◌}
use text.Mathlib.TextEquality.{eq_iff}
use native.Mathlib.Omega.{arith}
use text.Mathlib.Text.{is_le, is_lt}
use text.Mathlib.TextEquality.{path_by_compare}
use controller_powered_by_di.Base.Tests.{if◌then◌else◌, Bool-cases}
use controller_powered_by_di.Base.Lists.{All, All-map, any}

-- `s <= t` and `s < t` of Go's texts.
unfoldable pub text_le : String → String → Bool
text_le s t = is_le (compare s t)

unfoldable pub text_lt : String → String → Bool
text_lt s t = is_lt (compare s t)

flip : Ordering → Ordering
flip Ordering.lt = Ordering.gt
flip Ordering.eq = Ordering.eq
flip Ordering.gt = Ordering.lt

compare_ℕ-flip : (m n : ℕ) → compare_ℕ n m ≡ flip (compare_ℕ m n)
unfolding flip
compare_ℕ-flip m n = ground arith

flip-lexical : (o r : Ordering) → flip (lexical o r) ≡ lexical (flip o) (flip r)
unfolding flip
flip-lexical Ordering.lt r = refl
flip-lexical Ordering.eq r = refl
flip-lexical Ordering.gt r = refl

compare-flip : (s t : String) → compare t s ≡ flip (compare s t)
unfolding flip
compare-flip [] [] = refl
compare-flip [] (d ∷ t) = rw (compare_text.cons-nil d t, compare_text.nil-cons d t) refl
compare-flip (c ∷ s) [] = rw (compare_text.cons-nil c s, compare_text.nil-cons c s) refl
compare-flip (c ∷ s) (d ∷ t) =
    rw (compare_text.cons-cons c d s t, compare_text.cons-cons d c t s)
      (rw flip-lexical (rw (compare_ℕ-flip (code c) (code d), compare-flip s t) refl))

-- The order of texts is total and antisymmetric.
pub text_le_total : (s t : String) → text_le s t ≡ false → text_le t s ≡ true
unfolding text_le flip
text_le_total s t h = ground (arith, compare-flip s t)

pub text_le_antisym : (s t : String) → text_le s t ≡ true → text_le t s ≡ true → s ≡ t
unfolding text_le flip
text_le_antisym s t h k = path_by_compare s t (ground (arith, compare-flip s t))

pub text_lt_iff : (s t : String) → (text_lt s t ≡ true) ↔ (text_le t s ≡ false)
unfolding text_lt text_le flip
text_lt_iff s t = ground (arith, compare-flip s t)

pub text_le_trans : (s t u : String) → text_le s t ≡ true → text_le t u ≡ true → text_le s u ≡ true
unfolding text_le
text_le_trans [] [] u h k = k
text_le_trans [] (d ∷ t) [] h k = refl
text_le_trans [] (d ∷ t) (e ∷ u) h k = rw (compare_text.nil-cons e u) refl
text_le_trans (c ∷ s) [] u h k = let h' = rw (compare_text.cons-nil c s) at h in cc
text_le_trans (c ∷ s) (d ∷ t) [] h k = let k' = rw (compare_text.cons-nil d t) at k in cc
text_le_trans (c ∷ s) (d ∷ t) (e ∷ u) h k = ground (
  arith,
  compare_text.cons-cons c d s t,
  compare_text.cons-cons d e t u,
  compare_text.cons-cons c e s u,
  text_le_trans s t u,
)

pub text_lt_asym : (s t : String) → text_lt s t ≡ true → text_lt t s ≡ false
unfolding text_lt flip
text_lt_asym s t h = ground (arith, compare-flip s t)

pub text_lt_not_trans :
    (s t u : String) → text_lt s t ≡ false → text_lt t u ≡ false → text_lt s u ≡ false
unfolding text_lt text_le flip
text_lt_not_trans s t u h k =
    ground (arith, compare-flip s t, compare-flip t u, compare-flip s u, text_le_trans u t s)

unfoldable pub insert : String → List String → List String
insert a List.[] = List.◌∷◌ a List.[]
insert a (List.◌∷◌ b xs) =
    if text_le a b then List.◌∷◌ a (List.◌∷◌ b xs) else List.◌∷◌ b (insert a xs)

-- `sort.Strings(xs)`
unfoldable pub sort_texts : List String → List String
unfolding insert
sort_texts List.[] = List.[]
sort_texts (List.◌∷◌ a xs) = insert a (sort_texts xs)

-- Ascending: each item is at most all that follow it.
abbrev pub IsAscending : List String → Type 0
IsAscending List.[] = Unit
IsAscending (List.◌∷◌ a xs) = All (λ b. text_le a b ≡ true) xs × IsAscending xs

All-insert :
    (P : String → Type 0) (a : String) (xs : List String) → P a → All P xs → All P (insert a xs)
unfolding insert
All-insert P a List.[] p h = (p, tt)
All-insert P a (List.◌∷◌ b xs) p h = elim (Bool-cases (text_le a b)) [
  | inl le ↦ rw le (p, h)
  | inr gt ↦ rw gt (h.0, All-insert P a xs p h.1)
]

pub All-sort_texts : (P : String → Type 0) (xs : List String) → All P xs → All P (sort_texts xs)
unfolding sort_texts
All-sort_texts P List.[] h = tt
All-sort_texts P (List.◌∷◌ a xs) h = All-insert P a (sort_texts xs) h.0 (All-sort_texts P xs h.1)

insert-IsAscending : (a : String) (xs : List String) → IsAscending xs → IsAscending (insert a xs)
unfolding insert
insert-IsAscending a List.[] h = (tt, tt)
insert-IsAscending a (List.◌∷◌ b xs) h = elim (Bool-cases (text_le a b)) [
  | inl le ↦ rw le ((le, All-map (λ c k. text_le_trans a b c le k) xs h.0), h)
  | inr gt ↦ rw gt (All-insert _ a xs (text_le_total a b gt) h.0, insert-IsAscending a xs h.1)
]

-- The sorted list ascends.
pub sort_texts-IsAscending : (xs : List String) → IsAscending (sort_texts xs)
unfolding sort_texts
sort_texts-IsAscending List.[] = tt
sort_texts-IsAscending (List.◌∷◌ a xs) =
    insert-IsAscending a (sort_texts xs) (sort_texts-IsAscending xs)

insert-perm : (a : String) (xs : List String) → Perm (insert a xs) (List.◌∷◌ a xs)
unfolding insert
insert-perm a List.[] = Perm.refl _
insert-perm a (List.◌∷◌ b xs) = elim (Bool-cases (text_le a b)) [
  | inl le ↦ rw le (Perm.refl _)
  | inr gt ↦ rw gt (Perm.trans (Perm.cons b (insert-perm a xs)) (Perm.swap a b xs))
]

-- The sorted list holds the same items.
pub sort_texts-perm : (xs : List String) → Perm (sort_texts xs) xs
unfolding sort_texts
sort_texts-perm List.[] = Perm.refl _
sort_texts-perm (List.◌∷◌ a xs) =
    Perm.trans (insert-perm a (sort_texts xs)) (Perm.cons a (sort_texts-perm xs))

insert-insert : (a b : String) (xs : List String) → insert a (insert b xs) ≡ insert b (insert a xs)
unfolding insert
insert-insert a b List.[] =
    ground (arith, text_le_total a b, text_le_total b a, text_le_antisym a b)
insert-insert a b (List.◌∷◌ c xs) = ground (
  arith,
  text_le_total a b,
  text_le_total b a,
  text_le_antisym a b,
  text_le_total a c,
  text_le_total b c,
  text_le_trans a b c,
  text_le_trans b a c,
  insert-insert a b xs,
)

sort_texts-eq_of_permᴰ : {xs ys : List String} → Permᴰ xs ys → sort_texts xs ≡ sort_texts ys
unfolding sort_texts
sort_texts-eq_of_permᴰ Permᴰ.nil = refl
sort_texts-eq_of_permᴰ (Permᴰ.cons e p) = rw (e, sort_texts-eq_of_permᴰ p) refl
sort_texts-eq_of_permᴰ (Permᴰ.swap {a} {b} {l} d e) = cc (insert-insert a b (sort_texts l))
sort_texts-eq_of_permᴰ (Permᴰ.trans p q) = sort_texts-eq_of_permᴰ p ∙ sort_texts-eq_of_permᴰ q

string_discrete : Discrete String
string_discrete s t =
    dite (Bool-discrete (s == t) true) (λ same. yes ((eq_iff s t).0 same))
      (λ differ. no (λ p. differ ((eq_iff s t).1 p)))

texts-discrete : Discrete (List String)
texts-discrete = hlevel string_discrete

-- Sorting forgets the order of the items.
pub sort_texts-eq_of_perm : {xs ys : List String} → Perm xs ys → sort_texts xs ≡ sort_texts ys
sort_texts-eq_of_perm p = ∥∥₁_elim p (hedberg texts-discrete _ _) sort_texts-eq_of_permᴰ

any-insert :
    (p : String → Bool) (a : String) (xs : List String) → any p (insert a xs) ≡ (p a || any p xs)
unfolding insert
any-insert p a List.[] = refl
any-insert p a (List.◌∷◌ b xs) = ground (arith, any-insert p a xs)

-- Sorting keeps what is there.
pub any-sort_texts : (p : String → Bool) (xs : List String) → any p (sort_texts xs) ≡ any p xs
unfolding sort_texts
any-sort_texts p List.[] = refl
any-sort_texts p (List.◌∷◌ a xs) = any-insert p a (sort_texts xs) ∙ rw (any-sort_texts p xs) refl
