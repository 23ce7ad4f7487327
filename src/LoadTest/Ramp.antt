-- ===== src/LoadTest/Ramp.antt =====
-- The ramp ends with as many permits as asked for, and never gives more.
use Prim.Native.Nat.{◌*◌, ◌/◌}
use native.Mathlib.Nat.{mul-le-mul_left}
use native.Mathlib.Decide.{dec_lt}
use adaptive_admission_contr.Base.{
  ℕ, zero, suc, ◌+◌, ◌-◌, ◌≤◌, ◌<◌, ◌≡◌, refl, ap₂, ◌∙◌, ◌⊎◌, inl, inr, true, false, ltb, List, [],
  ◌∷◌, ◌++◌, In, arith, Bool-cases,
}
use adaptive_admission_contr.Base.Float.{Float, fixed_point}
use adaptive_admission_contr.LoadTest.{
  Permits, grant, grant_up_to, at_least_one, at_most_one, ramp_capacity, ramp_rounds, ramp_up,
}

-- `int(n * x)` for an integer n below 2^32 and a fraction x: it is n for 1.0, and at most n below;
-- and a quotient of a positive number and no smaller one is at least 1.0.
pub record IsFraction (fl : Float) : Type 0 where
  pub whole : (n : ℕ) → n < 4294967296 → fl.trunc (fl.times (fl.of_ℕ n) (fl.of_ℕ 1)) ≡ n
  pub part_le :
      (n : ℕ) (x : fl.F)
      → n < 4294967296
      → fl.lt x (fl.of_ℕ 1) ≡ true
      → fl.trunc (fl.times (fl.of_ℕ n) x) ≤ n
  pub over_ge :
      (x y : fl.F)
      → fl.lt (fl.of_ℕ 0) y ≡ true
      → fl.lt x y ≡ false
      → fl.lt (fl.over x y) (fl.of_ℕ 1) ≡ false

part_bound : (n x : ℕ) → x < 1000 → n * 1000 * x / 1000 / 1000 ≤ n
part_bound n x h =
    let le : x ≤ 1000 = omega arith in
    let a : n * x ≤ n * 1000 = mul-le-mul_left n le in omega arith

quotient_ge : (x y : ℕ) → 0 < y → y ≤ x → 1000 ≤ x * 1000 / y
quotient_ge x y pos le = elim (dec_lt (x * 1000 / y) 1000) [
  | yes small ↦
      let next : x * 1000 / y + 1 ≤ 1000 = omega arith in
      let bound : y * (x * 1000 / y + 1) ≤ y * 1000 = mul-le-mul_left y next in absurd (omega arith)
  | no large ↦ omega arith
]

pub fixed_point-IsFraction : IsFraction fixed_point
fixed_point-IsFraction = record {
  whole = λ n small. omega arith;
  part_le = λ n x small below. part_bound n x (ground arith);
  over_ge =
      λ x y pos le. let ge = quotient_ge x y (ground arith) (ground arith) in ground (arith, ge);
}

grant-permits :
    (n : ℕ) (s : Permits)
    → ((grant n s).granted ≡ s.granted + n) × ((grant n s).released ≡ s.released + n)
unfolding grant
grant-permits zero s = (omega arith, omega arith)
grant-permits (suc n) s =
    let (a, b) = grant-permits n (record { granted = s.granted + 1; released = s.released + 1 }) in
    (omega (arith, a), omega (arith, b))

-- The semaphore has been given the permits that were granted, and no more than c.
pub record IsWithin (c : ℕ) (s : Permits) : Type 0 where
  pub all_released : s.released ≡ s.granted
  pub within : s.granted ≤ c

grant_up_to-IsWithin :
    (c target : ℕ) (s : Permits)
    → target ≤ c
    → IsWithin c s
    → IsWithin c (grant_up_to target s) × (target ≤ (grant_up_to target s).granted)
unfolding grant_up_to
grant_up_to-IsWithin c target s le v =
    let (a, b) = grant-permits (target - s.granted) s in
    (
      record {
        all_released = omega (arith, a, b, v.all_released);
        within = omega (arith, a, v.within);
      },
      omega (arith, a),
    )

module _ ⦃fl : Float⦄ where
  open fl use {F, lt, of_ℕ, over}

  ramp_capacity-le :
      (o : IsFraction fl) (c : ℕ) (ramp e : F) → 1 ≤ c → c < 4294967296 → ramp_capacity c ramp e ≤ c
  unfolding ramp_capacity at_least_one at_most_one
  ramp_capacity-le o c ramp e pos small =
      ground (arith, o.part_le c (over e ramp) small, o.whole c small)

  ramp_capacity-full :
      (o : IsFraction fl) (c : ℕ) (ramp e : F)
      → 1 ≤ c
      → c < 4294967296
      → lt (of_ℕ 0) ramp ≡ true
      → lt e ramp ≡ false
      → ramp_capacity c ramp e ≡ c
  unfolding ramp_capacity at_least_one at_most_one
  ramp_capacity-full o c ramp e pos small ramps late =
      ground (arith, o.over_ge e ramp ramps late, o.whole c small, pos, ramps)

  -- Some reading of the clock is past the ramp.
  abbrev pub IsLate : F → List F → Type 0
  IsLate ramp es = (e : F) × In e es × (lt e ramp ≡ false)

  ramp_rounds-full :
      (c : ℕ) (ramp : F) (es : List F) (s : Permits)
      → c ≤ s.granted
      → ((ramp_rounds c ramp es s).1 ≡ true) × (c ≤ (ramp_rounds c ramp es s).0.granted)
  unfolding ramp_rounds
  ramp_rounds-full c ramp [] s full = (ground arith, full)
  ramp_rounds-full c ramp (e ∷ es) s full =
      let done : ltb s.granted c ≡ false = ground arith in rw (done, ramp_rounds) (refl, full)

  ramp_rounds-IsWithin :
      (o : IsFraction fl) (c : ℕ) (ramp : F) (es : List F) (s : Permits)
      → 1 ≤ c
      → c < 4294967296
      → IsWithin c s
      → IsWithin c (ramp_rounds c ramp es s).0
  unfolding ramp_rounds
  ramp_rounds-IsWithin o c ramp [] s pos small v = v
  ramp_rounds-IsWithin o c ramp (e ∷ es) s pos small v = elim (Bool-cases (ltb s.granted c)) [
    | inr full ↦ rw (full, ramp_rounds) v
    | inl below ↦
        let (kept, _) =
          grant_up_to-IsWithin c (ramp_capacity c ramp e) s (ramp_capacity-le o c ramp e pos small)
            v in
        rw (below, ramp_rounds) (ramp_rounds-IsWithin o c ramp es _ pos small kept)
  ]

  ramp_rounds-ends :
      (o : IsFraction fl) (c : ℕ) (ramp : F) (es : List F) (s : Permits)
      → 1 ≤ c
      → c < 4294967296
      → IsWithin c s
      → lt (of_ℕ 0) ramp ≡ true
      → IsLate ramp es
      → ((ramp_rounds c ramp es s).1 ≡ true) × (c ≤ (ramp_rounds c ramp es s).0.granted)
  unfolding ramp_rounds
  ramp_rounds-ends o c ramp [] s pos small v ramps (e, i, late) = absurd i
  ramp_rounds-ends o c ramp (x ∷ es) s pos small v ramps (e, i, late) =
      elim (Bool-cases (ltb s.granted c)) [
        | inr full ↦ rw (full, ramp_rounds) (refl, ground arith)
        | inl below ↦
            let (kept, reached) =
              grant_up_to-IsWithin c (ramp_capacity c ramp x) s
                (ramp_capacity-le o c ramp x pos small) v in
            rw (below, ramp_rounds)
              (elim i [
                | inl head ↦
                    let past : lt x ramp ≡ false = ground (arith, head, late) in
                    ramp_rounds-full c ramp es _
                      (ground (arith, reached, ramp_capacity-full o c ramp x pos small ramps past))
                | inr tail ↦ ramp_rounds-ends o c ramp es _ pos small kept ramps (e, tail, late)
              ])
      ]

  ramp_up-IsWithin :
      (o : IsFraction fl) (c : ℕ) (ramp : F) (es : List F)
      → 1 ≤ c
      → c < 4294967296
      → IsWithin c (ramp_up c ramp es).0
  unfolding ramp_up
  ramp_up-IsWithin o c ramp es pos small = elim (Bool-cases (lt (of_ℕ 0) ramp)) [
    | inr none_wanted ↦
        rw (none_wanted, ramp_up) (record { all_released = refl; within = omega arith })
    | inl ramps ↦
        rw (ramps, ramp_up)
          (ramp_rounds-IsWithin o c ramp es _ pos small
            (record { all_released = refl; within = pos }))
  ]

  ramp_up-ends :
      (o : IsFraction fl) (c : ℕ) (ramp : F) (es : List F)
      → 1 ≤ c
      → c < 4294967296
      → (lt (of_ℕ 0) ramp ≡ false) ⊎ IsLate ramp es
      → ((ramp_up c ramp es).1 ≡ true) × (c ≤ (ramp_up c ramp es).0.granted)
  unfolding ramp_up
  ramp_up-ends o c ramp es pos small h = elim (Bool-cases (lt (of_ℕ 0) ramp)) [
    | inr none_wanted ↦ rw (none_wanted, ramp_up) (refl, omega arith)
    | inl ramps ↦ elim h [
      | inl none_wanted ↦ absurd (ground (arith, ramps, none_wanted))
      | inr late ↦
          rw (ramps, ramp_up)
            (ramp_rounds-ends o c ramp es _ pos small (record { all_released = refl; within = pos })
              ramps late)
    ]
  ]

  -- After the rounds `es` the semaphore has no more permits than the concurrency asked for, and
  -- each one that was granted was released to it; and once a round of `es` or a later one reads a
  -- time past the ramp, or if there is no ramp, the loop has ended, with exactly that many permits.
  -- The concurrency is at least 1 and below 2^32.
  pub ramp_up-completes :
      (o : IsFraction fl) (c : ℕ) (ramp : F) (es later : List F)
      → 1 ≤ c
      → c < 4294967296
      → (lt (of_ℕ 0) ramp ≡ false) ⊎ IsLate ramp (es ++ later)
      → IsWithin c (ramp_up c ramp es).0
        × ((ramp_up c ramp (es ++ later)).1 ≡ true)
        × ((ramp_up c ramp (es ++ later)).0 ≡ record { granted = c; released = c })
  ramp_up-completes o c ramp es later pos small h =
      let v = ramp_up-IsWithin o c ramp (es ++ later) pos small in
      let (ended, reached) = ramp_up-ends o c ramp (es ++ later) pos small h in
      let all : (ramp_up c ramp (es ++ later)).0.granted ≡ c = omega (arith, v.within, reached) in
      (
        ramp_up-IsWithin o c ramp es pos small,
        ended,
        ap₂ (λ g r. record { granted = g; released = r }) all (v.all_released ∙ all),
      )
