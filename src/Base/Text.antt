-- ===== src/Base/Text.antt =====
-- Go's `strings` functions over texts, by recursion on the characters, with what they decide.
use Prim.Native.Nat.{ℕ}
use Prim.Native.Char.{code}
use Prim.Native.String.{String, [], ◌∷◌, ◌++◌}
use mathlib.Core.Path.{◌≡◌, refl, sym, ap, ◌∙◌}
use mathlib.Core.Logic.{◌↔◌, inl, inr}
use mathlib.Core.Bool.{Bool, true, false}
use mathlib.Core.Option.{Option, none, some}
use mathlib.Core.List
use native.Mathlib.Omega.{arith}
use text.Mathlib.Text.{◌==◌}
use text.Mathlib.TextEquality.{eq_iff, Char-path}
use text.Mathlib.TextPositions.{eq_refl}
use text.Mathlib.TextLemmas.{nil-append, cons-append, append_cancel_right, cons-ne-nil}
use controller_powered_by_di.Base.Tests.{if◌then◌else◌, num_eq, Bool-cases}

-- `s == ""`
abbrev pub is_empty : String → Bool
is_empty [] = true
is_empty (_ ∷ _) = false

-- `strings.CutPrefix(s, p)`: what follows the prefix, if it is there.
unfoldable pub cut_prefix : String → String → Option String
cut_prefix s [] = some s
cut_prefix [] (d ∷ p) = none
cut_prefix (c ∷ s) (d ∷ p) = if num_eq (code c) (code d) then cut_prefix s p else none

-- `strings.HasPrefix(s, p)`
unfoldable pub has_prefix : String → String → Bool
unfolding cut_prefix
has_prefix s p = elim (cut_prefix s p) [ none ↦ false | some _ ↦ true ]

-- `strings.TrimPrefix(s, p)`
unfoldable pub trim_prefix : String → String → String
unfolding cut_prefix
trim_prefix s p = elim (cut_prefix s p) [ none ↦ s | some rest ↦ rest ]

-- `strings.HasSuffix(s, t)`
unfoldable pub has_suffix : String → String → Bool
has_suffix [] t = is_empty t
has_suffix (c ∷ s) t = if (c ∷ s) == t then true else has_suffix s t

-- `strings.TrimSuffix(s, t)`
unfoldable pub trim_suffix : String → String → String
trim_suffix [] t = []
trim_suffix (c ∷ s) t = if (c ∷ s) == t then [] else c ∷ trim_suffix s t

-- `strings.Split(s, ".")` for a separator of one character, with the piece under way.
split_from : ℕ → String → String → List.List String
split_from sep cur [] = List.◌∷◌ cur List.[]
split_from sep cur (c ∷ s) =
    let closed = split_from sep [] s in
    let longer = split_from sep (cur ++ (c ∷ [])) s in
    if num_eq (code c) sep then List.◌∷◌ cur closed else longer

unfoldable pub split : String → ℕ → List.List String
unfolding split_from
split s sep = split_from sep [] s

pub is_empty_iff : (s : String) → (is_empty s ≡ true) ↔ (s ≡ [])
is_empty_iff [] = (λ _. refl, λ _. refl)
is_empty_iff (c ∷ s) = (λ h. cc, λ h. absurd (cons-ne-nil c s h))

-- A suffix is there exactly where the text is something with the suffix behind it.
pub has_suffix_sound : (s t : String) → has_suffix s t ≡ true → s ≡ trim_suffix s t ++ t
unfolding has_suffix trim_suffix
has_suffix_sound [] t h = sym (nil-append t ∙ (is_empty_iff t).0 h)
has_suffix_sound (c ∷ s) t h = elim (Bool-cases ((c ∷ s) == t)) [
  | inl same ↦ rw same ((eq_iff (c ∷ s) t).0 same ∙ sym (nil-append t))
  | inr differ ↦
      rw differ (rw cons-append (ap (λ r. c ∷ r) (has_suffix_sound s t (rw differ at h))))
]

pub has_suffix_complete : (p t : String) → has_suffix (p ++ t) t ≡ true
unfolding has_suffix
has_suffix_complete [] t = rw nil-append (has_suffix-self t)
  where
    has_suffix-self : (t : String) → has_suffix t t ≡ true
    has_suffix-self [] = refl
    has_suffix-self (c ∷ t) = rw eq_refl
has_suffix_complete (c ∷ p) t = rw cons-append (ground (arith, has_suffix_complete p t))

-- Cutting the suffix from a text that has it leaves what stands before it.
pub trim_suffix-append : (p t : String) → trim_suffix (p ++ t) t ≡ p
trim_suffix-append p t =
    append_cancel_right _ _ t (sym (has_suffix_sound (p ++ t) t (has_suffix_complete p t)))

-- A prefix is cut exactly where the text is the prefix with the rest behind it.
pub cut_prefix_sound : (s p rest : String) → cut_prefix s p ≡ some rest → s ≡ p ++ rest
unfolding cut_prefix
cut_prefix_sound s [] rest h = cc (nil-append rest)
cut_prefix_sound [] (d ∷ p) rest h = cc
cut_prefix_sound (c ∷ s) (d ∷ p) rest h = elim (Bool-cases (num_eq (code c) (code d))) [
  | inl same ↦
      let ih = cut_prefix_sound s p rest (ground arith) in
      let head = Char-path c d (ground arith) in rw (head, ih) (sym (cons-append d p rest))
  | inr differ ↦ ground arith
]

pub cut_prefix_complete : (p rest : String) → cut_prefix (p ++ rest) p ≡ some rest
unfolding cut_prefix
cut_prefix_complete [] rest = rw nil-append refl
cut_prefix_complete (d ∷ p) rest = rw cons-append (ground (arith, cut_prefix_complete p rest))

pub has_prefix_complete : (p rest : String) → has_prefix (p ++ rest) p ≡ true
unfolding has_prefix
has_prefix_complete p rest = rw (cut_prefix_complete p rest, has_prefix) refl

pub trim_prefix-append : (p rest : String) → trim_prefix (p ++ rest) p ≡ rest
unfolding trim_prefix
trim_prefix-append p rest = rw (cut_prefix_complete p rest, trim_prefix) refl

-- With the prefix, the text is the prefix and the trimmed text.
pub has_prefix_sound : (s p : String) → has_prefix s p ≡ true → s ≡ p ++ trim_prefix s p
unfolding has_prefix trim_prefix
has_prefix_sound s p h = go (cut_prefix s p) refl h
  where
    go :
        (o : Option String)
        → cut_prefix s p ≡ o
        → (elim o [ none ↦ false | some _ ↦ true ]) ≡ true
        → s ≡ p ++ (elim o [ none ↦ s | some rest ↦ rest ])
    go none e k = cc
    go (some rest) e k = cut_prefix_sound s p rest e
