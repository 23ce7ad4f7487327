-- ===== src/Base/Dicts.antt =====
-- A Python dictionary with text keys: an association list in insertion order. An update of a
-- present key keeps its place.
use mathlib.Core.Path.{◌≡◌, refl, ap}
use mathlib.Core.List.{List, [], ◌∷◌, map}
use mathlib.Core.Logic.{◌≢◌, ◌⊎◌, inl, inr}
use mathlib.Core.Bool.{Bool}
use mathlib.Core.Option.{Option, none, some}
use native.Mathlib.Omega.{arith}
use adaptive_admission_contr.Base.Tests.{if◌then◌else◌, Bool-cases}
use adaptive_admission_contr.Base.Lists.{filter}
use adaptive_admission_contr.Base.Codes.{Text, ◌==◌, ==_iff}

abbrev pub Dict {ℓ} : Type ℓ → Type ℓ
Dict V = List (Text × V)

module _ {ℓ} {V : Type ℓ} where
  -- `d.get(k)`
  unfoldable pub lookup : Text → Dict V → Option V
  lookup k [] = none
  lookup k ((j, v) ∷ d) = if j == k then some v else lookup k d

  -- `d[k] = v`
  unfoldable pub insert : Text → V → Dict V → Dict V
  insert k v [] = (k, v) ∷ []
  insert k v ((j, w) ∷ d) = if j == k then (j, v) ∷ d else (j, w) ∷ insert k v d

  -- `del d[k]`, and `d.pop(k, None)`
  unfoldable pub delete : Text → Dict V → Dict V
  delete k [] = []
  delete k ((j, w) ∷ d) = if j == k then d else (j, w) ∷ delete k d

  -- `dict.fromkeys(ks, v)`
  unfoldable pub from_keys : List Text → V → Dict V → Dict V
  unfolding insert
  from_keys [] v d = d
  from_keys (k ∷ ks) v d = from_keys ks v (insert k v d)

  abbrev pub keys : Dict V → List Text
  keys = map (λ e. e.0)

  abbrev pub get_or : V → Option V → V
  get_or v none = v
  get_or v (some w) = w

  -- No key stands twice.
  abbrev pub Distinct : Dict V → Type ℓ
  Distinct [] = Unit
  Distinct ((k, v) ∷ d) = (lookup k d ≡ none) × Distinct d

  pub lookup-insert :
      (k j : Text) (v : V) (d : Dict V)
      → lookup j (insert k v d) ≡ (if k == j then some v else lookup j d)
  unfolding lookup insert
  lookup-insert k j v [] = refl
  lookup-insert k j v ((i, w) ∷ d) =
      ground (arith, ==_iff k j, ==_iff i k, ==_iff i j, lookup-insert k j v d)

  pub insert-Distinct : (k : Text) (v : V) (d : Dict V) → Distinct d → Distinct (insert k v d)
  unfolding lookup insert
  insert-Distinct k v [] h = (refl, tt)
  insert-Distinct k v ((i, w) ∷ d) h =
      ground (arith, ==_iff i k, ==_iff k i, lookup-insert k i v d, insert-Distinct k v d h.1)

  pub lookup-delete :
      (k j : Text) (d : Dict V)
      → Distinct d
      → lookup j (delete k d) ≡ (if k == j then none else lookup j d)
  unfolding lookup delete
  lookup-delete k j [] h = ground arith
  lookup-delete k j ((i, w) ∷ d) h =
      ground (arith, ==_iff k j, ==_iff i k, ==_iff i j, lookup-delete k j d h.1)

  -- A filter on the keys hides the keys that fail it.
  pub lookup-filter :
      (p : Text × V → Bool) (q : Text → Bool) (j : Text) (d : Dict V)
      → ((k : Text) (v : V) → p (k, v) ≡ q k)
      → lookup j (filter p d) ≡ (if q j then lookup j d else none)
  unfolding lookup
  lookup-filter p q j [] h = ground arith
  lookup-filter p q j ((i, w) ∷ d) h = ground (arith, h i w, ==_iff i j, lookup-filter p q j d h)

  lookup-filter-none :
      (p : Text × V → Bool) (j : Text) (d : Dict V)
      → lookup j d ≡ none
      → lookup j (filter p d) ≡ none
  unfolding lookup
  lookup-filter-none p j [] h = refl
  lookup-filter-none p j ((i, w) ∷ d) h = ground (arith, lookup-filter-none p j d)

  -- A filter on entries hides the entries that fail it.
  pub lookup-filter_entry :
      (p : Text × V → Bool) (k : Text) (d : Dict V)
      → Distinct d
      → lookup k (filter p d)
        ≡ elim (lookup k d) [ none ↦ none | some v ↦ if p (k, v) then some v else none ]
  unfolding lookup
  lookup-filter_entry p k [] h = refl
  lookup-filter_entry p k ((i, w) ∷ d) h =
      ground (arith, ==_iff i k, lookup-filter-none p k d, lookup-filter_entry p k d h.1)

  pub filter-Distinct : (p : Text × V → Bool) (d : Dict V) → Distinct d → Distinct (filter p d)
  unfolding lookup
  filter-Distinct p [] h = tt
  filter-Distinct p ((i, w) ∷ d) h =
      ground (arith, lookup-filter-none p i d h.0, filter-Distinct p d h.1)

  pub keys-insert :
      (k : Text) (v : V) (d : Dict V) {w : V} → lookup k d ≡ some w → keys (insert k v d) ≡ keys d
  unfolding lookup insert
  keys-insert k v [] h = cc
  keys-insert k v ((i, u) ∷ d) {w} h = ground (arith, keys-insert k v d {w = w})

  -- Writing a key's value back undoes a write to it.
  pub insert-insert :
      (k : Text) (v w : V) (d : Dict V) → lookup k d ≡ some w → insert k w (insert k v d) ≡ d
  unfolding lookup insert
  insert-insert k v w [] h = cc
  insert-insert k v w ((i, u) ∷ d) h = ground (arith, insert-insert k v w d)

  lookup-delete-none : (k j : Text) (d : Dict V) → lookup j d ≡ none → lookup j (delete k d) ≡ none
  unfolding lookup delete
  lookup-delete-none k j [] h = refl
  lookup-delete-none k j ((i, w) ∷ d) h = ground (arith, lookup-delete-none k j d)

  pub delete-Distinct : (k : Text) (d : Dict V) → Distinct d → Distinct (delete k d)
  unfolding lookup delete
  delete-Distinct k [] h = tt
  delete-Distinct k ((i, w) ∷ d) h =
      ground (arith, lookup-delete-none k i d h.0, delete-Distinct k d h.1)

  pub from_keys-Distinct :
      (ks : List Text) (v : V) (d : Dict V) → Distinct d → Distinct (from_keys ks v d)
  unfolding from_keys
  from_keys-Distinct [] v d h = h
  from_keys-Distinct (k ∷ ks) v d h = from_keys-Distinct ks v _ (insert-Distinct k v d h)

  insert-ne-nil : (k : Text) (v : V) (d : Dict V) → insert k v d ≢ []
  unfolding insert
  insert-ne-nil k v [] = λ e. cc
  insert-ne-nil k v ((i, w) ∷ d) = λ e. ground arith

  pub from_keys-ne-nil : (ks : List Text) (v : V) (d : Dict V) → d ≢ [] → from_keys ks v d ≢ []
  unfolding from_keys
  from_keys-ne-nil [] v d h = h
  from_keys-ne-nil (k ∷ ks) v d h = from_keys-ne-nil ks v (insert k v d) (insert-ne-nil k v d)

  pub from_keys-ne-nil_of_ne : (ks : List Text) (v : V) → ks ≢ [] → from_keys ks v [] ≢ []
  unfolding from_keys
  from_keys-ne-nil_of_ne [] v h = absurd (h refl)
  from_keys-ne-nil_of_ne (k ∷ ks) v h = from_keys-ne-nil ks v (insert k v []) (insert-ne-nil k v [])

  -- What `fromkeys` stores under a key is the one value.
  pub lookup-from_keys :
      (ks : List Text) (j : Text) (v w : V) (d : Dict V)
      → lookup j (from_keys ks v d) ≡ some w
      → (lookup j d ≡ some w) ⊎ (w ≡ v)
  unfolding from_keys
  lookup-from_keys [] j v w d h = inl h
  lookup-from_keys (k ∷ ks) j v w d h = elim (lookup-from_keys ks j v w (insert k v d) h) [
    | inl e ↦ ground (arith, lookup-insert k j v d)
    | inr e ↦ inr e
  ]

module _ {ℓ κ} {V : Type ℓ} {W : Type κ} where
  keys-insert_same :
      (k : Text) (v : V) (w : W) (d : Dict V) (e : Dict W)
      → keys d ≡ keys e
      → keys (insert k v d) ≡ keys (insert k w e)
  unfolding insert
  keys-insert_same k v w [] [] h = refl
  keys-insert_same k v w [] (y ∷ e) h = cc
  keys-insert_same k v w (x ∷ d) [] h = cc
  keys-insert_same k v w ((i, x) ∷ d) ((j, y) ∷ e) h =
      let same : i ≡ j = cc in
      let rest : keys d ≡ keys e = cc in
      elim (Bool-cases (i == k)) [
        | inl hit ↦ rw (hit, (rw same at hit)) h
        | inr miss ↦
            rw (miss, (rw same at miss), same) (ap (◌∷◌ j) (keys-insert_same k v w d e rest))
      ]

  pub keys-from_keys_same :
      (ks : List Text) (v : V) (w : W) (d : Dict V) (e : Dict W)
      → keys d ≡ keys e
      → keys (from_keys ks v d) ≡ keys (from_keys ks w e)
  unfolding from_keys
  keys-from_keys_same [] v w d e h = h
  keys-from_keys_same (k ∷ ks) v w d e h =
      keys-from_keys_same ks v w _ _ (keys-insert_same k v w d e h)

  -- Two dictionaries with the same keys miss the same keys.
  pub keys-eq-none :
      (d : Dict V) (e : Dict W) (k : Text) → keys d ≡ keys e → lookup k d ≡ none → lookup k e ≡ none
  unfolding lookup
  keys-eq-none d [] k same h = refl
  keys-eq-none [] (y ∷ e) k same h = cc
  keys-eq-none ((i, v) ∷ d) ((j, w) ∷ e) k same h = ground (arith, keys-eq-none d e k)

  pub keys-eq-Distinct : (d : Dict V) (e : Dict W) → keys d ≡ keys e → Distinct d → Distinct e
  keys-eq-Distinct [] [] same h = tt
  keys-eq-Distinct [] (y ∷ e) same h = cc
  keys-eq-Distinct (x ∷ d) [] same h = cc
  keys-eq-Distinct ((i, v) ∷ d) ((j, w) ∷ e) same h =
      let first : i ≡ j = cc in
      let rest : keys d ≡ keys e = cc in
      (rw (← first) (keys-eq-none d e i rest h.0), keys-eq-Distinct d e rest h.1)
