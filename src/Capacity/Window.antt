-- ===== src/Capacity/Window.antt =====
-- The rolling windows and the percentile.
use adaptive_admission_contr.Base.{
  ℕ, zero, suc, ◌+◌, ◌-◌, ◌*◌, ◌/◌, ◌≤◌, ◌<◌, ◌≡◌, refl, ap, ◌∙◌, inl, inr, true, false,
  if◌then◌else◌, ltb, arith, some, Bool-cases, List, [], ◌∷◌, ◌++◌, length, length-append, drop,
  get_elem?, get_elem?-some, All,
}
use adaptive_admission_contr.Base.Float.{Float, IsOrdered}
use adaptive_admission_contr.Capacity.{
  push, LatencyWindow, place, sorted, p95, p95_index, min_samples,
}

module _ {ℓ} {A : Type ℓ} where
  length-drop : (n : ℕ) (xs : List A) → length (drop n xs) ≡ length xs - n
  length-drop zero xs = omega arith
  length-drop (suc n) [] = omega arith
  length-drop (suc n) (x ∷ xs) = omega (arith, length-drop n xs)

  -- A window holds what it held and the new sample, but never more than its size.
  pub length-push :
      (size : ℕ) (x : A) (xs : List A)
      → length xs ≤ size
      → length (push size x xs) ≡ (if ltb (length xs) size then length xs + 1 else size)
  unfolding push
  length-push size x xs h =
      ground (
        arith,
        length-drop (length (xs ++ x ∷ []) - size) (xs ++ x ∷ []),
        length-append xs (x ∷ []),
      )

module _ ⦃fl : Float⦄ where
  open fl use {F, lt}

  length-place : (x : F) (ys : List F) → length (place x ys) ≡ suc (length ys)
  unfolding place
  length-place x [] = refl
  length-place x (y ∷ ys) = ground (arith, length-place x ys)

  length-sorted : (xs : List F) → length (sorted xs) ≡ length xs
  unfolding sorted
  length-sorted [] = refl
  length-sorted (x ∷ xs) = length-place x (sorted xs) ∙ ap suc (length-sorted xs)

  -- How many samples are below `v`, and how many are not above it.
  pub count_below : F → List F → ℕ
  count_below v [] = 0
  count_below v (x ∷ xs) = if lt x v then suc (count_below v xs) else count_below v xs

  pub count_upto : F → List F → ℕ
  count_upto v [] = 0
  count_upto v (x ∷ xs) = if lt v x then count_upto v xs else suc (count_upto v xs)

  count_below-place : (v x : F) (ys : List F) → count_below v (place x ys) ≡ count_below v (x ∷ ys)
  unfolding place count_below
  count_below-place v x [] = refl
  count_below-place v x (y ∷ ys) = ground (arith, count_below-place v x ys)

  count_upto-place : (v x : F) (ys : List F) → count_upto v (place x ys) ≡ count_upto v (x ∷ ys)
  unfolding place count_upto
  count_upto-place v x [] = refl
  count_upto-place v x (y ∷ ys) = ground (arith, count_upto-place v x ys)

  count_below-sorted : (v : F) (xs : List F) → count_below v (sorted xs) ≡ count_below v xs
  unfolding sorted count_below
  count_below-sorted v [] = refl
  count_below-sorted v (x ∷ xs) =
      ground (arith, count_below-place v x (sorted xs), count_below-sorted v xs)

  count_upto-sorted : (v : F) (xs : List F) → count_upto v (sorted xs) ≡ count_upto v xs
  unfolding sorted count_upto
  count_upto-sorted v [] = refl
  count_upto-sorted v (x ∷ xs) =
      ground (arith, count_upto-place v x (sorted xs), count_upto-sorted v xs)

  abbrev NoneBelow : F → List F → Type 0
  NoneBelow x = All (λ y. lt y x ≡ false)

  abbrev Ascending : List F → Type 0
  Ascending [] = Unit {0}
  Ascending (x ∷ xs) = NoneBelow x xs × Ascending xs

  module _ (ordered : IsOrdered fl) where
    NoneBelow-place :
        (z x : F) (ys : List F) → lt x z ≡ false → NoneBelow z ys → NoneBelow z (place x ys)
    unfolding place
    NoneBelow-place z x [] h all = (h, tt)
    NoneBelow-place z x (y ∷ ys) h all = elim (Bool-cases (lt y x)) [
      | inl after ↦ rw after (all.0, NoneBelow-place z x ys h all.1)
      | inr before ↦ rw before (h, all)
    ]

    NoneBelow-mono : (x y : F) (ys : List F) → lt y x ≡ false → NoneBelow y ys → NoneBelow x ys
    NoneBelow-mono x y [] h all = tt
    NoneBelow-mono x y (z ∷ ys) h all =
        (ordered.le_trans x y z h all.0, NoneBelow-mono x y ys h all.1)

    lt_asym : (x y : F) → lt x y ≡ true → lt y x ≡ false
    lt_asym x y h = elim (Bool-cases (lt y x)) [
      | inl back ↦ cc (ordered.lt_trans x y x h back, ordered.lt_irrefl x)
      | inr fine ↦ fine
    ]

    place-Ascending : (x : F) (ys : List F) → Ascending ys → Ascending (place x ys)
    unfolding place
    place-Ascending x [] a = (tt, tt)
    place-Ascending x (y ∷ ys) a = elim (Bool-cases (lt y x)) [
      | inl after ↦
          rw after (NoneBelow-place y x ys (lt_asym y x after) a.0, place-Ascending x ys a.1)
      | inr before ↦ rw before ((before, NoneBelow-mono x y ys before a.0), a)
    ]

    sorted-Ascending : (xs : List F) → Ascending (sorted xs)
    unfolding sorted
    sorted-Ascending [] = tt
    sorted-Ascending (x ∷ xs) = place-Ascending x (sorted xs) (sorted-Ascending xs)

    count_below-none : (v : F) (xs : List F) → NoneBelow v xs → count_below v xs ≡ 0
    unfolding count_below
    count_below-none v [] all = refl
    count_below-none v (x ∷ xs) all = rw all.0 (count_below-none v xs all.1)

    NoneBelow-get :
        (x v : F) (xs : List F) (i : ℕ) → NoneBelow x xs → get_elem? xs i ≡ some v → lt v x ≡ false
    NoneBelow-get x v [] i all e = cc
    NoneBelow-get x v (y ∷ ys) zero all e = ground arith
    NoneBelow-get x v (y ∷ ys) (suc i) all e = NoneBelow-get x v ys i all.1 e

    rank :
        (xs : List F) (i : ℕ) (v : F)
        → Ascending xs
        → get_elem? xs i ≡ some v
        → (count_below v xs ≤ i) × (i < count_upto v xs)
    unfolding count_below count_upto
    rank [] i v a e = cc
    rank (x ∷ xs) zero v a e = ground (arith, ordered.lt_irrefl x, count_below-none x xs a.0)
    rank (x ∷ xs) (suc i) v a e = ground (arith, rank xs i v a.1 e, NoneBelow-get x v xs i a.0 e)

    -- With at least ten samples the p95 is defined: fewer than or exactly 95% of the samples
    -- (rounded down) are below it, and more than that many are not above it.
    pub p95-rank :
        (w : LatencyWindow)
        → min_samples ≤ length w.samples
        → (v : F) × (p95 w ≡ some v)
          × (count_below v w.samples ≤ 95 * length w.samples / 100)
          × (95 * length w.samples / 100 < count_upto v w.samples)
    unfolding p95 p95_index
    p95-rank w enough =
        let n = length w.samples in
        let (v, e) =
          get_elem?-some (sorted w.samples) (95 * n / 100)
            (omega (arith, length-sorted w.samples)) in
        let (below, upto) =
          rank (sorted w.samples) (95 * n / 100) v (sorted-Ascending w.samples) e in
        (
          v,
          ground arith,
          omega (arith, count_below-sorted v w.samples),
          omega (arith, count_upto-sorted v w.samples),
        )
