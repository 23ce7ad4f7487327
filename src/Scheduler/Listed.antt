-- ===== src/Scheduler/Listed.antt =====
-- A queue kept as a list, which serves the earlier put of two tied items: for the examples, with the fixed-point floats.
use adaptive_admission_contr.Base.{
  ℕ, ◌≤◌, ◌<◌, ◌≡◌, ◌≢◌, refl, sym, ap, ◌∙◌, ◌⊎◌, inl, inr, true, false, leb, ltb, ◌&&◌, Option,
  none, some, List, [], ◌∷◌, ◌++◌, length, arith, Bool-cases, if◌then◌else◌, In,
}
use adaptive_admission_contr.Base.Float.{Float, fixed_point}
use adaptive_admission_contr.Scheduler.{
  Entry, before, PriorityQueue, Put, full, put_raises, taken, Got, empty, get_raises, got,
}

instance abbrev clock : Float
clock = fixed_point

pub record Found : Type 0 where
  ahead : List Entry
  found : Entry
  behind : List Entry

prefer : Entry → List Entry → Option Found → Found
prefer x xs none = record { ahead = []; found = x; behind = xs }
prefer x xs (some f) =
    if before f.found x
    then record f { ahead = x ∷ f.ahead }
    else record { ahead = []; found = x; behind = xs }

least : List Entry → Option Found
unfolding prefer before
least [] = none
least (x ∷ xs) = some (prefer x xs (least xs))

prefer-splits :
    (x : Entry) (xs : List Entry) (f : Found)
    → xs ≡ f.ahead ++ f.found ∷ f.behind
    → let g = prefer x xs (some f) in x ∷ xs ≡ g.ahead ++ g.found ∷ g.behind
unfolding prefer
prefer-splits x xs f e = elim (Bool-cases (before f.found x)) [
  | inl better ↦ rw (better, prefer) (ap (λ ys. x ∷ ys) e)
  | inr worse ↦ rw (worse, prefer) refl
]

first-splits :
    (x : Entry) (xs : List Entry)
    → let g = prefer x xs (least xs) in x ∷ xs ≡ g.ahead ++ g.found ∷ g.behind
unfolding least prefer
first-splits x [] = refl
first-splits x (y ∷ ys) = prefer-splits x (y ∷ ys) (prefer y ys (least ys)) (first-splits y ys)

before-total : (x y z : Entry) → before z y ≡ false → before y x ≡ false → before z x ≡ false
unfolding before
before-total x y z h k = ground arith

before-asym : (x y : Entry) → before y x ≡ true → before x y ≡ false
unfolding before
before-asym x y h = ground arith

before_irrefl : (x : Entry) → before x x ≡ false
unfolding before
before_irrefl x = ground arith

first-least :
    (x y : Entry) (xs : List Entry)
    → In y (x ∷ xs)
    → before y (prefer x xs (least xs)).found ≡ false
unfolding least prefer
first-least x y [] (inl e) = rw e (before_irrefl x)
first-least x y [] (inr i) = absurd i
first-least x y (z ∷ zs) i =
    let f = prefer z zs (least zs) in
    elim (Bool-cases (before f.found x)) [
      | inl better ↦
          rw (better, prefer)
            (elim i [
              | inl e ↦ rw e (before-asym x f.found better)
              | inr rest ↦ first-least z y zs rest
            ])
      | inr worse ↦
          rw (worse, prefer)
            (elim i [
              | inl e ↦ rw e (before_irrefl x)
              | inr rest ↦ before-total x f.found y (first-least z y zs rest) worse
            ])
    ]

unfoldable pub take_least : List Entry → Got (List Entry)
unfolding least prefer before
take_least [] = empty
take_least (x ∷ xs) = let f = prefer x xs (least xs) in got f.found (f.ahead ++ f.behind)

unfoldable pub put_last : ℕ → Entry → List Entry → Put (List Entry)
put_last maxsize x xs =
    if ltb 0 maxsize && leb maxsize (length xs) then full else taken (xs ++ x ∷ [])

pair-inv :
    (x : Entry) (xs : List Entry) (y : Entry) (ys : List Entry)
    → ◌≡◌ {A = Got (List Entry)} (got x xs) (got y ys)
    → (x ≡ y) × (xs ≡ ys)
pair-inv x xs y ys e = (cc, cc)

pub take_least-least :
    (x y : Entry) (q q' : List Entry) → take_least q ≡ got x q' → In y q → before y x ≡ false
unfolding take_least
take_least-least x y [] q' e i = absurd i
take_least-least x y (z ∷ zs) q' e i =
    let f = prefer z zs (least zs) in
    let same = pair-inv f.found (f.ahead ++ f.behind) x q' e in
    ap (before y) (sym same.0) ∙ first-least z y zs i

pub put_last-full :
    (n : ℕ) (x : Entry) (q : List Entry) → put_last n x q ≡ full → (0 < n) × (n ≤ length q)
unfolding put_last
put_last-full n x q e = (ground arith, ground arith)

pub put_last-takes :
    (n : ℕ) (x : Entry) (q q' : List Entry)
    → put_last n x q ≡ taken q'
    → (q' ≡ q ++ x ∷ []) × ((n ≡ 0) ⊎ (length q < n))
unfolding put_last
put_last-takes n x q q' e = (ground arith, ground arith)

pub take_least-empty : (q : List Entry) → take_least q ≡ empty → q ≡ []
unfolding take_least
take_least-empty [] e = refl
take_least-empty (x ∷ xs) e = cc

pub take_least-splits :
    (x : Entry) (q q' : List Entry)
    → take_least q ≡ got x q'
    → (l : List Entry) × (r : List Entry) × (q ≡ l ++ x ∷ r) × (q' ≡ l ++ r)
unfolding take_least
take_least-splits x [] q' e = cc
take_least-splits x (y ∷ ys) q' e =
    let f = prefer y ys (least ys) in
    let split = first-splits y ys in
    let same = pair-inv f.found (f.ahead ++ f.behind) x q' e in
    (f.ahead, f.behind, split ∙ ap (λ z. f.ahead ++ z ∷ f.behind) same.0, sym same.1)

pub put_last-raises : (n : ℕ) (x : Entry) (q q' : List Entry) → put_last n x q ≢ put_raises q'
unfolding put_last
put_last-raises n x q q' = λ e. ground arith

pub take_least-raises : (q : List Entry) → take_least q ≢ get_raises
unfolding take_least
take_least-raises [] = λ e. cc
take_least-raises (x ∷ xs) = λ e. cc

unfoldable pub listed : (maxsize : ℕ) → PriorityQueue (List Entry)
listed maxsize = record {
  maxsize = maxsize;
  contents = λ q. q;
  put_nowait = put_last maxsize;
  get = take_least;
  put_full = put_last-full maxsize;
  put_takes = put_last-takes maxsize;
  put_tied = λ x q q' e. absurd (put_last-raises maxsize x q q' e);
  get_empty = take_least-empty;
  get_tied = λ q e. absurd (take_least-raises q e);
  get_takes = take_least-splits;
  get_least = take_least-least;
}
