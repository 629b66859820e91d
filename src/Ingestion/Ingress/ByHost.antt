-- ===== src/Ingestion/Ingress/ByHost.antt =====
-- pkg/model/ingestion/ingress.go: the maps of listeners by their hostnames.
use controller_powered_by_di.Base.{
  String, true, none, some, List, [], ◌∷◌, ◌++◌, ◌==◌, ◌≡◌, refl, ◌∙◌, ap₂, sym, subst, map, gather,
  is_some, Bool-cases, Option-cases, inl, inr, All, All-map, Any, here, there, eq_iff, eq_refl,
}
use controller_powered_by_di.Base.Sort.{
  sort_texts, All-sort_texts, IsAscending, sort_texts-IsAscending,
}
use controller_powered_by_di.Base.Assoc.{find, upsert, find-text-Any}
use controller_powered_by_di.Model.{HttpListener}
use controller_powered_by_di.Ingestion.Ingress.{append_values_in_key_order}

-- A map of listeners by their hostnames, which have a property.
module _ (P : HttpListener → Type 0) where
  abbrev pub IsByHost : List (String × HttpListener) → Type 0
  IsByHost m = All (λ e. (e.1.hostname ≡ e.0) × P e.1) m

  pub upsert-IsByHost :
      (k : String) (l : HttpListener) (m : List (String × HttpListener))
      → l.hostname ≡ k
      → P l
      → IsByHost m
      → IsByHost (upsert (λ a b. a == b) k l m)
  unfolding upsert
  upsert-IsByHost k l [] e p h = ((e, p), tt)
  upsert-IsByHost k l ((k', l') ∷ m) e p h = elim (Bool-cases (k' == k)) [
    | inl hit ↦ rw hit ((e ∙ sym ((eq_iff k' k).0 hit), p), h.1)
    | inr miss ↦ rw miss (h.0, upsert-IsByHost k l m e p h.1)
  ]

  keys-found :
      (m : List (String × HttpListener))
      → All (λ k. is_some (find (λ a b. a == b) k m) ≡ true) (map (λ e. e.0) m)
  unfolding find
  keys-found [] = tt
  keys-found ((k, l) ∷ m) = (
    rw (eq_refl k) refl,
    All-map
        (λ k' found. elim (Bool-cases (k == k')) [
          | inl hit ↦ rw hit refl
          | inr miss ↦ rw miss found
        ])
        (map (λ e. e.0) m) (keys-found m),
  )

  pub find-IsByHost :
      (k : String) (l : HttpListener) (m : List (String × HttpListener))
      → IsByHost m
      → find (λ a b. a == b) k m ≡ some l
      → (l.hostname ≡ k) × P l
  find-IsByHost k l m h e = by_entry m h (find-text-Any k m e)
    where
      by_entry :
          (m : List (String × HttpListener))
          → IsByHost m
          → Any (λ x. x ≡ (k, l)) m
          → (l.hostname ≡ k) × P l
      by_entry [] h a = elim a [ ]
      by_entry (x ∷ m) h (here e) = subst (λ y. (y.1.hostname ≡ y.0) × P y.1) e h.0
      by_entry (x ∷ m) h (there a) = by_entry m h.1 a

  values : List (String × HttpListener) → List String → List HttpListener
  unfolding find
  values m ks = gather (λ k. elim (find (λ a b. a == b) k m) [ none ↦ [] | some v ↦ v ∷ [] ]) ks

  values-lem :
      (m : List (String × HttpListener))
      → IsByHost m
      → (ks : List String) → All (λ k. is_some (find (λ a b. a == b) k m) ≡ true) ks
      → (map (λ l. l.hostname) (values m ks) ≡ ks) × All P (values m ks)
  unfolding values
  values-lem m h [] found = (refl, tt)
  values-lem m h (k ∷ ks) found = elim (Option-cases (find (λ a b. a == b) k m)) [
    | inl absent ↦ cc (rw absent at found.0)
    | inr (l, at_k) ↦
        let (host, p) = find-IsByHost k l m h at_k in
        let (hosts, ps) = values-lem m h ks found.1 in
        rw at_k (ap₂ (λ x xs. x ∷ xs) host hosts, (p, ps))
  ]

  -- The values of a map in the order of its keys.
  pub append_values-lem :
      (m : List (String × HttpListener)) (xs : List HttpListener)
      → IsByHost m
      → (vs : List HttpListener) × (append_values_in_key_order m xs ≡ xs ++ vs)
        × IsAscending (map (λ l. l.hostname) vs)
        × All P vs
  unfolding append_values_in_key_order values
  append_values-lem m xs h =
      let ks = sort_texts (map (λ e. e.0) m) in
      let (hosts, ps) = values-lem m h ks (All-sort_texts _ _ (keys-found m)) in
      (
        values m ks,
        refl,
        subst IsAscending (sym hosts) (sort_texts-IsAscending (map (λ e. e.0) m)),
        ps,
      )
