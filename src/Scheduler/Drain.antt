-- ===== src/Scheduler/Drain.antt =====
-- The worker serves everything that waits, as long as slots become free.
use adaptive_admission_contr.Base.{
  ℕ, suc, ◌+◌, ◌≡◌, refl, sym, subst, In, ap, ◌∙◌, inl, inr, Bool, true, not, ◌&&◌, if◌then◌else◌,
  some, All, List, [], ◌∷◌, ◌++◌, length, arith, Bool-cases,
}
use adaptive_admission_contr.Base.Float.{Float}
use adaptive_admission_contr.Interfaces.{CapacityController}
use adaptive_admission_contr.Scheduler.{
  Entry, PriorityQueue, Service, NoTies, Got-cases, Round, waits, dies, goes_on, take_slot, serve,
  serve_next, worker_round,
}

module _ ⦃fl : Float⦄ where
  -- How many entries pass a test.
  pub count : (Entry → Bool) → List Entry → ℕ
  count p [] = 0
  count p (x ∷ xs) = if p x then suc (count p xs) else count p xs

  count-append :
      (p : Entry → Bool) (xs ys : List Entry) → count p (xs ++ ys) ≡ count p xs + count p ys
  unfolding count
  count-append p [] ys = omega arith
  count-append p (x ∷ xs) ys = ground (arith, count-append p xs ys)

  count-cons :
      (p : Entry → Bool) (x : Entry) (xs : List Entry)
      → count p (x ∷ xs) ≡ count p (x ∷ []) + count p xs
  unfolding count
  count-cons p x xs = ground arith

  length-nil : (l : List Entry) → length l ≡ 0 → l ≡ []
  length-nil [] h = refl
  length-nil (x ∷ l) h = absurd (omega (arith, h))

  length-middle : (l r : List Entry) (x : Entry) → length (l ++ x ∷ r) ≡ suc (length (l ++ r))
  length-middle [] r x = refl
  length-middle (y ∷ l) r x = ap (λ n. suc n) (length-middle l r x)

  In-middle : (l r : List Entry) (x z : Entry) → In z (l ++ r) → In z (l ++ x ∷ r)
  In-middle [] r x z i = inr i
  In-middle (y ∷ l) r x z (inl e) = inl e
  In-middle (y ∷ l) r x z (inr i) = inr (In-middle l r x z i)

  -- A part has no ties either.
  NoTies-fewer : (l r : List Entry) (x : Entry) → NoTies (l ++ x ∷ r) → NoTies (l ++ r)
  NoTies-fewer [] r x h = h.1
  NoTies-fewer (y ∷ l) r x h = ((λ z i. h.0 z (In-middle l r x z i)), NoTies-fewer l r x h.1)

  module _ {S Q : Type 0} (ctl : CapacityController S) (pq : PriorityQueue Q)
      (is_cancelled : Entry → Bool) where
    -- Rounds of the worker, each from the controller as the other tasks have left it.
    pub rounds : List S → Service S Q → Round (Service S Q)
    unfolding worker_round
    rounds [] s = goes_on s
    rounds (c ∷ cs) s = elim (worker_round ctl pq is_cancelled (record s { controller = c })) [
      | waits ↦ waits
      | dies ↦ dies
      | goes_on s' ↦ rounds cs s'
    ]

    -- The waiting entries that pass a test and are not cancelled.
    abbrev pub live : (Entry → Bool) → Entry → Bool
    live p x = p x && not (is_cancelled x)

    -- Taking the entry out of the middle.
    count-middle :
        (p : Entry → Bool) (l r : List Entry) (x : Entry)
        → count p (l ++ x ∷ r) ≡ count p (l ++ r) + count p (x ∷ [])
    count-middle p l r x =
        omega (arith, count-append p l (x ∷ r), count-cons p x r, count-append p l r)

    served :
        (p : Entry → Bool) (x : Entry) (q : Q) (s : Service S Q)
        → ((serve ctl is_cancelled x q s).queue ≡ q)
          × (count p (serve ctl is_cancelled x q s).running
              ≡ count p s.running + count (live p) (x ∷ []))
    unfolding serve count
    served p x q s = elim (Bool-cases (is_cancelled x)) [
      | inl gone ↦ rw (gone, serve) (refl, ground (arith, gone))
      | inr here ↦ rw (here, serve) (refl, ground (arith, here, count-append p s.running (x ∷ [])))
    ]

    -- One round takes one entry, and starts it unless it was cancelled.
    round-lem :
        (p : Entry → Bool) (c c' : S) (s : Service S Q) (n : ℕ)
        → ctl.acquire 1 c ≡ some c'
        → NoTies (pq.contents s.queue)
        → length (pq.contents s.queue) ≡ suc n
        → (s' : Service S Q) × (worker_round ctl pq is_cancelled (record s { controller = c })
            ≡ goes_on s')
          × NoTies (pq.contents s'.queue)
          × (length (pq.contents s'.queue) ≡ n)
          × (count p s'.running + count (live p) (pq.contents s'.queue)
              ≡ count p s.running + count (live p) (pq.contents s.queue))
    unfolding worker_round take_slot serve_next
    round-lem p c c' s n free untied waiting = elim (Got-cases (pq.get s.queue)) [
      | inl none_left ↦ absurd (ground (arith, waiting, ap length (pq.get_empty s.queue none_left)))
      | inr (inl raised) ↦ absurd (pq.get_tied s.queue raised untied)
      | inr (inr (x, q, found)) ↦
          let (l, r, before, after) = pq.get_takes x s.queue q found in
          let s' = serve ctl is_cancelled x q (record s { controller = c'; holding = true }) in
          let (queue, counts) = served p x q (record s { controller = c'; holding = true }) in
          let total = ap (count (live p)) before ∙ count-middle (live p) l r x in
          let rest = ap (λ k. count (live p) (pq.contents k)) queue ∙ ap (count (live p)) after in
          (
            s',
            rw (worker_round, take_slot, free, serve_next, found) refl,
            subst NoTies (sym (ap pq.contents queue ∙ after))
                (NoTies-fewer l r x (subst NoTies before untied)),
            ap (λ k. length (pq.contents k)) queue
                ∙ omega (arith, waiting, ap length before, ap length after, length-middle l r x),
            omega (arith, counts, total, rest),
          )
    ]

    -- Some slot is free.
    abbrev pub IsFree : S → Type 0
    IsFree c = (c' : S) × (ctl.acquire 1 c ≡ some c')

    -- If no two entries that wait have both the same score and the same arrival, and a slot is free
    -- before each of as many rounds as entries wait, whatever the other tasks do
    -- to the controller in between, then every round goes through, the queue is empty at the end,
    -- and of the entries that pass any given test exactly those that were not cancelled have been
    -- started, each once, next to the dispatches that were running before.
    pub rounds-drain :
        (cs : List S) (s : Service S Q) (p : Entry → Bool)
        → All IsFree cs
        → NoTies (pq.contents s.queue)
        → length (pq.contents s.queue) ≡ length cs
        → (s' : Service S Q) × (rounds cs s ≡ goes_on s')
          × (pq.contents s'.queue ≡ [])
          × (count p s'.running ≡ count p s.running + count (live p) (pq.contents s.queue))
    unfolding rounds
    rounds-drain [] s p free untied waiting =
        let empty = length-nil (pq.contents s.queue) waiting in
        (s, refl, empty, unfold count in omega (arith, ap (count (live p)) empty))
    rounds-drain (c ∷ cs) s p ((c', slot), free) untied waiting =
        let (s', went, still, fewer, same) = round-lem p c c' s (length cs) slot untied waiting in
        let (s'', rest, empty, counts) = rounds-drain cs s' p free still fewer in
        (s'', rw (rounds, went) rest, empty, omega (arith, counts, same))
