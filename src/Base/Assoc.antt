-- ===== src/Base/Assoc.antt =====
-- Go's maps as association lists, for keys that a test tells apart.
use Prim.Native.String.{String}
use text.Mathlib.Text.{◌==◌}
use text.Mathlib.TextEquality.{eq_iff}
use mathlib.Core.Path.{◌≡◌, refl, sym, ap, ap₂, ◌∙◌, subst}
use mathlib.Core.Logic.{◌↔◌, inl, inr}
use mathlib.Core.Bool.{Bool, true, false}
use mathlib.Core.Option.{Option, none, some}
use mathlib.Core.List.{List, [], ◌∷◌}
use controller_powered_by_di.Base.Tests.{if◌then◌else◌, Bool-cases, some_inj}
use controller_powered_by_di.Base.Lists.{All, Any, here, there}

module _ {ℓ κ} {K : Type ℓ} {V : Type κ} (eq : K → K → Bool) where
  -- `m[k]`
  unfoldable pub find : K → List (K × V) → Option V
  find k [] = none
  find k ((k', v) ∷ m) = if eq k' k then some v else find k m

  -- `m[k] = v`
  unfoldable pub upsert : K → V → List (K × V) → List (K × V)
  upsert k v [] = (k, v) ∷ []
  upsert k v ((k', v') ∷ m) = if eq k' k then (k', v) ∷ m else (k', v') ∷ upsert k v m

  -- `delete(m, k)`
  unfoldable pub remove : K → List (K × V) → List (K × V)
  remove k [] = []
  remove k ((k', v') ∷ m) = let rest = remove k m in if eq k' k then rest else (k', v') ∷ rest

  module _ (eq_iff : (a b : K) → (eq a b ≡ true) ↔ (a ≡ b)) where
    pub find-upsert :
        (k l : K) (v : V) (m : List (K × V))
        → find l (upsert k v m) ≡ (if eq k l then some v else find l m)
    unfolding find upsert
    find-upsert k l v [] = refl
    find-upsert k l v ((k', v') ∷ m) = elim (Bool-cases (eq k' k)) [
      | inl same ↦ rw (same, ap (λ x. eq x l) ((eq_iff k' k).0 same)) (once (eq k l))
      | inr differ ↦ elim (Bool-cases (eq k' l)) [
        | inl hit ↦ rw (differ, other k k' l differ hit) (rw hit refl)
        | inr miss ↦ rw differ (rw miss (find-upsert k l v m))
      ]
    ]
      where
        once :
            (b : Bool)
            → (if b then some v else find l m)
              ≡ (if b then some v else if b then some v' else find l m)
        once true = refl
        once false = refl

        other : (k k' l : K) → eq k' k ≡ false → eq k' l ≡ true → eq k l ≡ false
        other k k' l differ hit = elim (Bool-cases (eq k l)) [
          | inl e ↦ cc (differ, (eq_iff k' k).1 ((eq_iff k' l).0 hit ∙ sym ((eq_iff k l).0 e)))
          | inr ne ↦ ne
        ]

  -- What holds of every entry stays so.
  module _ {μ} (P : K → V → Type μ) where
    pub All-find :
        (k : K) {v : V} (m : List (K × V))
        → All (λ e. P e.0 e.1) m
        → find k m ≡ some v
        → (l : K) × P l v
    unfolding find
    All-find k [] h e = cc
    All-find k ((k', v') ∷ m) (p, h) e = elim (Bool-cases (eq k' k)) [
      | inl hit ↦ (k', subst (P k') (some_inj (rw hit at e)) p)
      | inr miss ↦ All-find k m h (rw miss at e)
    ]

    pub All-upsert :
        (k : K) (v : V) (m : List (K × V))
        → All (λ e. P e.0 e.1) m
        → ((l : K) → P l v)
        → All (λ e. P e.0 e.1) (upsert k v m)
    unfolding upsert
    All-upsert k v [] h p = (p k, tt)
    All-upsert k v ((k', v') ∷ m) (q, h) p = elim (Bool-cases (eq k' k)) [
      | inl hit ↦ rw hit (p k', h)
      | inr miss ↦ rw miss (q, All-upsert k v m h p)
    ]

    pub All-remove :
        (k : K) (m : List (K × V)) → All (λ e. P e.0 e.1) m → All (λ e. P e.0 e.1) (remove k m)
    unfolding remove
    All-remove k [] h = tt
    All-remove k ((k', v') ∷ m) (q, h) = elim (Bool-cases (eq k' k)) [
      | inl hit ↦ rw hit (All-remove k m h)
      | inr miss ↦ rw miss (q, All-remove k m h)
    ]

-- The maps with texts as keys.
pub find-upsert-text {κ} :
    {V : Type κ} (k l : String) (v : V) (m : List (String × V))
    → find (λ a b. a == b) l (upsert (λ a b. a == b) k v m)
      ≡ (if k == l then some v else find (λ a b. a == b) l m)
find-upsert-text = find-upsert (λ a b. a == b) eq_iff

pub find-text-Any {κ} :
    {V : Type κ} (k : String) {v : V} (m : List (String × V))
    → find (λ a b. a == b) k m ≡ some v
    → Any (λ e. e ≡ (k, v)) m
unfolding find
find-text-Any k [] e = cc
find-text-Any k ((k', v') ∷ m) e = elim (Bool-cases (k' == k)) [
  | inl hit ↦ here (ap₂ (λ a b. (a, b)) ((eq_iff k' k).0 hit) (some_inj (rw hit at e)))
  | inr miss ↦ there (find-text-Any k m (rw miss at e))
]
