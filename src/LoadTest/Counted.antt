-- ===== src/LoadTest/Counted.antt =====
-- What the requests of a load test leave in the tally, and the percentiles of it.
use adaptive_admission_contr.Base.{
  ℕ, zero, suc, ◌+◌, ◌%◌, ◌<◌, ◌≡◌, ◌≢◌, refl, ap, ◌∙◌, inl, inr, false, eqb, some, List, [], ◌∷◌,
  ◌++◌, length, get_elem?, In, Text, codes, Dict, lookup, insert, get_or, decimal, arith,
}
use native.Mathlib.Omega.{mod_fact}
use adaptive_admission_contr.Base.Float.{Float}
use adaptive_admission_contr.LoadTest.{
  url_at, prepend, distribute_from, distribute_urls, Sent, answered, http_error, other_error,
  count_up, Tally, with_status, fire, fire_all, min_index, percentile,
}

-- All counts of a `Counter` together.
pub total : Dict ℕ → ℕ
total [] = 0
total ((k, n) ∷ d) = n + total d

total-insert :
    (k : Text) (n : ℕ) (d : Dict ℕ) → total (insert k n d) + get_or 0 (lookup k d) ≡ total d + n
unfolding total insert lookup
total-insert k n [] = omega arith
total-insert k n ((j, m) ∷ d) = ground (arith, total-insert k n d)

total-count_up : (k : Text) (d : Dict ℕ) → total (count_up k d) ≡ total d + 1
unfolding count_up
total-count_up k d = omega (arith, total-insert k (get_or 0 (lookup k d) + 1) d)

length-snoc {ℓ} : {A : Type ℓ} (xs : List A) (x : A) → length (xs ++ x ∷ []) ≡ length xs + 1
length-snoc [] x = refl
length-snoc (y ∷ xs) x = ground (arith, length-snoc xs x)

get_elem?-some :
    {A : Type 0} (xs : List A) (i : ℕ)
    → i < length xs
    → (x : A) × (get_elem? xs i ≡ some x) × In x xs
get_elem?-some [] i h = absurd (omega arith)
get_elem?-some (x ∷ xs) zero h = (x, refl, inl refl)
get_elem?-some (x ∷ xs) (suc i) h =
    let (y, e, there) = get_elem?-some xs i (omega arith) in (y, e, inr there)

-- The url of the i-th request is there, since there is some url.
url_at-some : (urls : List Text) (i : ℕ) → urls ≢ [] → (u : Text) × (url_at urls i ≡ some u)
unfolding url_at
url_at-some [] i h = absurd (h refl)
url_at-some (x ∷ urls) i h =
    let nonzero : eqb (length (x ∷ urls)) 0 ≡ false = ground arith in
    let (u, e, _) = get_elem?-some (x ∷ urls) (i % length (x ∷ urls)) (mod_fact i (length urls)) in
    (u, rw (nonzero, url_at) e)

distribute_from-length :
    (urls : List Text) (i n : ℕ)
    → urls ≢ []
    → (l : List Text) × (distribute_from urls i n ≡ some l) × (length l ≡ n)
unfolding distribute_from prepend
distribute_from-length urls i zero h = ([], refl, refl)
distribute_from-length urls i (suc n) h =
    let (u, first) = url_at-some urls i h in
    let (l, rest, same) = distribute_from-length urls (suc i) n h in
    (u ∷ l, rw (first, rest) refl, omega (arith, same))

module _ ⦃fl : Float⦄ where
  open fl use {F, times, of_ℕ, trunc}

  -- No request ends in an exception outside httpx.
  abbrev pub AreCaught : (ℕ → Text → F × Sent) → Type 0
  AreCaught send = (i : ℕ) (url : Text) → (send i url).1 ≢ other_error

  pub record IsTallied (n : ℕ) (t : Tally) : Type 0 where
    pub latencies : length t.latencies ≡ n
    pub statuses : total t.statuses ≡ n

  with_status-IsTallied :
      (n : ℕ) (k : Text) (latency : F) (t : Tally)
      → IsTallied n t
      → IsTallied (n + 1) (with_status k latency t)
  unfolding with_status
  with_status-IsTallied n k latency t v = record {
    latencies = length-snoc t.latencies latency ∙ ap (λ m. m + 1) v.latencies;
    statuses = total-count_up k t.statuses ∙ ap (λ m. m + 1) v.statuses;
  }

  fire-IsTallied :
      (n : ℕ) (x : F × Sent) (t : Tally)
      → x.1 ≢ other_error
      → IsTallied n t
      → (t' : Tally) × (fire x t ≡ some t') × IsTallied (n + 1) t'
  unfolding fire
  fire-IsTallied n (latency, answered s) t h v =
      (_, refl, with_status-IsTallied n (decimal s) latency t v)
  fire-IsTallied n (latency, http_error name) t h v =
      (_, refl, with_status-IsTallied n (codes "error:" ++ name) latency t v)
  fire-IsTallied n (latency, other_error) t h v = absurd (h refl)

  fire_all-IsTallied :
      (send : ℕ → Text → F × Sent) (i n : ℕ) (urls : List Text) (t : Tally)
      → AreCaught send
      → IsTallied n t
      → (t' : Tally) × (fire_all send i urls t ≡ some t') × IsTallied (n + length urls) t'
  unfolding fire_all
  fire_all-IsTallied send i n [] t h v = (
    t,
    refl,
    record { latencies = omega (arith, v.latencies); statuses = omega (arith, v.statuses) },
  )
  fire_all-IsTallied send i n (url ∷ urls) t h v =
      let (t', fired, v') = fire-IsTallied n (send i url) t (h i url) v in
      let (t'', all, w) = fire_all-IsTallied send (suc i) (n + 1) urls t' h v' in
      (
        t'',
        rw (fired, fire_all) all,
        record { latencies = omega (arith, w.latencies); statuses = omega (arith, w.statuses) },
      )

  -- With at least one URL, each of the requests is given a URL; and when each has been sent, and none
  -- has ended in an exception outside httpx, exactly one latency was recorded for each, and the
  -- status counts add up to the number of requests: no request is lost or counted twice, those that
  -- failed included. That each gets a permit to be sent is not said.
  pub fire_all-distribute_urls :
      (send : ℕ → Text → F × Sent) (urls : List Text) (n : ℕ)
      → urls ≢ []
      → AreCaught send
      → (l : List Text) × (distribute_urls urls n ≡ some l)
        × (t : Tally) × (fire_all send 0 l (record { latencies = []; statuses = [] }) ≡ some t)
        × IsTallied n t
  unfolding distribute_urls total
  fire_all-distribute_urls send urls n h caught =
      let (l, given, size) = distribute_from-length urls 0 n h in
      let (t, fired, v) =
        fire_all-IsTallied send 0 0 l (record { latencies = []; statuses = [] }) caught
          (record { latencies = refl; statuses = refl }) in
      (
        l,
        given,
        t,
        fired,
        record {
          latencies = omega (arith, v.latencies, size);
          statuses = omega (arith, v.statuses, size);
        },
      )

  -- A percentile of some latencies is one of them, however the index is rounded.
  pub percentile-In :
      (x : F) (xs : List F) (pct : F) → (v : F) × (percentile (x ∷ xs) pct ≡ some v) × In v (x ∷ xs)
  unfolding percentile min_index
  percentile-In x xs pct = get_elem?-some (x ∷ xs) (min_index (length xs) _) (ground arith)
