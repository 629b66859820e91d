-- ===== src/Helpers/Sni/Laws.antt =====
-- The test of two hostnames returns, and is symmetric.
use mathlib.Core.List.{reverse, reverse-cons}
use text.Mathlib.TextLemmas.{nil-append, cons-append}
use controller_powered_by_di.Base.{
  ◌<>◌, ℕ, zero, suc, String, Bool, true, false, ◌||◌, ◌≡◌, ◌≢◌, refl, sym, ap, ◌∙◌, Option, none,
  some, List, [], ◌∷◌, ◌++◌, ◌==◌, if◌then◌else◌, arith, eq_iff, Bool-cases, inl, inr, length,
  some_inj,
}
use controller_powered_by_di.Base.Text.{is_empty, has_prefix, cut_prefix, cut_prefix_sound, split}
use controller_powered_by_di.Model.Hosts.{all_hosts}
use controller_powered_by_di.Helpers.Sni.{
  labels_loop, compare_labels, wildcard_hostnames_intersect, sni_hostnames_intersect, both_cut,
  by_wildcards, normalized_intersect, dot, max_length, cut_wildcard, normalize_hostname,
}

split-wildcard : (rest : String) → split ("*." <> rest) dot ≡ (all_hosts ∷ split rest dot)
unfolding split
split-wildcard rest =
    ap (λ s. split s dot)
      (cons-append "*" "." rest
        ∙ ap (λ t. String.◌∷◌ "*" t)
            (cons-append "." "" rest ∙ ap (λ t. String.◌∷◌ "." t) (nil-append rest)))

-- Labels that end with a star are not run past.
labels_loop-total :
    (left matching : ℕ) (xs ys : List String)
    → (v : Bool) × (labels_loop left matching (xs ++ all_hosts ∷ []) (ys ++ all_hosts ∷ [])
        ≡ some v)
unfolding labels_loop
labels_loop-total zero matching xs ys = (_, refl)
labels_loop-total (suc left) matching [] [] = (_, refl)
labels_loop-total (suc left) matching [] (y ∷ ys) = (_, refl)
labels_loop-total (suc left) matching (x ∷ xs) [] = elim (Bool-cases (x == all_hosts)) [
  | inl star ↦ rw star (_, refl)
  | inr label ↦ rw label (_, refl)
]
labels_loop-total (suc left) matching (x ∷ xs) (y ∷ ys) =
    let (v, e) = labels_loop-total left (suc matching) xs ys in
    elim (Bool-cases (x == all_hosts || y == all_hosts)) [
      | inl star ↦ rw star (_, refl)
      | inr labels ↦ elim (Bool-cases (x == y)) [
        | inl same ↦ rw (labels, same) (v, e)
        | inr differ ↦ rw (labels, differ) (false, refl)
      ]
    ]

labels_loop_comm :
    (left matching : ℕ) (xs ys : List String)
    → labels_loop left matching xs ys ≡ labels_loop left matching ys xs
unfolding labels_loop
labels_loop_comm zero matching xs ys = refl
labels_loop_comm (suc left) matching [] [] = refl
labels_loop_comm (suc left) matching [] (y ∷ ys) = refl
labels_loop_comm (suc left) matching (x ∷ xs) [] = refl
labels_loop_comm (suc left) matching (x ∷ xs) (y ∷ ys) =
    ground (arith, labels_loop_comm left (suc matching) xs ys, eq_iff x y, eq_iff y x)

max_length_comm : (a b : ℕ) → max_length a b ≡ max_length b a
max_length_comm a b = ground arith

compare_labels_comm : (xs ys : List String) → compare_labels xs ys ≡ compare_labels ys xs
unfolding compare_labels
compare_labels_comm xs ys =
    rw (max_length_comm (length xs) (length ys))
      (labels_loop_comm (max_length (length ys) (length xs)) 0 xs ys)

both_cut-total :
    (o p : Option String) (route listener : String)
    → ((r : String) → o ≡ some r → route ≡ "*." <> r)
    → ((r : String) → p ≡ some r → listener ≡ "*." <> r)
    → (v : Bool) × (both_cut o p route listener ≡ some v)
unfolding compare_labels both_cut
both_cut-total none none route listener f g = (_, refl)
both_cut-total none (some _) route listener f g = (_, refl)
both_cut-total (some _) none route listener f g = (_, refl)
both_cut-total (some r) (some l) route listener f g =
    rw (f r refl, g l refl)
      (rw
        (
          split-wildcard r,
          split-wildcard l,
          reverse-cons all_hosts (split r dot),
          reverse-cons all_hosts (split l dot),
        )
        (labels_loop-total _ 0 (reverse (split r dot)) (reverse (split l dot))))

both_cut_comm : (o p : Option String) (a b : String) → both_cut o p a b ≡ both_cut p o b a
unfolding both_cut
both_cut_comm none none a b = refl
both_cut_comm none (some _) a b = refl
both_cut_comm (some _) none a b = refl
both_cut_comm (some _) (some _) a b =
    compare_labels_comm (reverse (split a dot)) (reverse (split b dot))

cut_wildcard-some :
    (s r : String) (o : Option String)
    → ((rest : String) → o ≡ some rest → s ≡ "*." <> rest)
    → cut_wildcard s o ≡ some r
    → s ≡ "*." <> r
cut_wildcard-some s r none f e = cc
cut_wildcard-some s r (some rest) f e = elim (Bool-cases (is_empty rest)) [
  | inl empty ↦ cc (rw empty at e)
  | inr filled ↦ let same : rest ≡ r = some_inj (rw filled at e) in rw (sym same) (f rest refl)
]

wildcard-total : (a b : String) → (v : Bool) × (wildcard_hostnames_intersect a b ≡ some v)
unfolding wildcard_hostnames_intersect
wildcard-total a b = elim (Bool-cases (a == all_hosts || b == all_hosts)) [
  | inl every ↦ rw every (true, refl)
  | inr other ↦ rw other (
      both_cut-total (cut_wildcard a (cut_prefix a "*.")) (cut_wildcard b (cut_prefix b "*.")) a b
        (λ r. cut_wildcard-some a r (cut_prefix a "*.") (cut_prefix_sound a "*."))
        (λ r. cut_wildcard-some b r (cut_prefix b "*.") (cut_prefix_sound b "*.")))
]

-- A test that holds in either order.
either_order :
    (x y : Bool) {p q : Option Bool}
    → p ≡ q
    → (if x || y then some true else p) ≡ (if y || x then some true else q)
either_order true true e = refl
either_order true false e = refl
either_order false true e = refl
either_order false false e = e

settled :
    (x : Bool) {p : Option Bool}
    → (v : Bool) × (p ≡ some v)
    → (v : Bool) × ((if x then some true else p) ≡ some v)
settled true t = (true, refl)
settled false t = t

eq_comm : (a b : String) → (a == b) ≡ (b == a)
eq_comm a b = ground (arith, eq_iff a b, eq_iff b a)

wildcard_comm : (a b : String) → wildcard_hostnames_intersect a b ≡ wildcard_hostnames_intersect b a
unfolding wildcard_hostnames_intersect
wildcard_comm a b =
    either_order (a == all_hosts) (b == all_hosts)
      (both_cut_comm (cut_wildcard a (cut_prefix a "*.")) (cut_wildcard b (cut_prefix b "*.")) a b)

by_wildcards-total : (x y : Bool) (a b : String) → (v : Bool) × (by_wildcards x y a b ≡ some v)
unfolding by_wildcards
by_wildcards-total true true a b = wildcard-total a b
by_wildcards-total true false a b = (_, refl)
by_wildcards-total false true a b = (_, refl)
by_wildcards-total false false a b = (_, refl)

by_wildcards_comm : (x y : Bool) (a b : String) → by_wildcards x y a b ≡ by_wildcards y x b a
unfolding by_wildcards
by_wildcards_comm true true a b = wildcard_comm a b
by_wildcards_comm true false a b = refl
by_wildcards_comm false true a b = refl
by_wildcards_comm false false a b = refl

normalized-total : (a b : String) → (v : Bool) × (normalized_intersect a b ≡ some v)
unfolding normalized_intersect
normalized-total a b =
    settled (a == all_hosts || b == all_hosts)
      (settled (a == b) (by_wildcards-total (has_prefix a all_hosts) (has_prefix b all_hosts) a b))

normalized_comm : (a b : String) → normalized_intersect a b ≡ normalized_intersect b a
unfolding normalized_intersect
normalized_comm a b = either_order (a == all_hosts) (b == all_hosts) (
    ap
      (λ t.
        if t then some true else by_wildcards (has_prefix a all_hosts) (has_prefix b all_hosts) a b)
      (eq_comm a b)
    ∙ ap (λ p. if b == a then some true else p)
        (by_wildcards_comm (has_prefix a all_hosts) (has_prefix b all_hosts) a b))

-- The test of two hostnames never indexes a list of labels out of range, and does not depend
-- on their order.
pub sni_hostnames_intersect_comm :
    (a b : String)
    → (sni_hostnames_intersect a b ≢ none)
      × (sni_hostnames_intersect a b ≡ sni_hostnames_intersect b a)
unfolding sni_hostnames_intersect
sni_hostnames_intersect_comm a b =
    let (v, e) = normalized-total (normalize_hostname a) (normalize_hostname b) in
    ((λ never. cc (e, never)), normalized_comm (normalize_hostname a) (normalize_hostname b))
