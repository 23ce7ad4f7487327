-- ===== src/LoadTest.antt =====
-- scripts/load_test.py: the round of the URLs, the ramp of the semaphore, the record that each
-- request leaves, and the percentiles of the report. What a request meets, how long it takes and
-- what the clock reads are arguments.
mod Ramp
mod Counted
mod Tests
use adaptive_admission_contr.Base.{
  ℕ, zero, suc, ◌+◌, ◌-◌, ◌%◌, Bool, true, false, not, if◌then◌else◌, ltb, eqb, Option, none, some,
  List, [], ◌∷◌, ◌++◌, length, get_elem?, Text, codes, Dict, lookup, insert, get_or, decimal,
}
use adaptive_admission_contr.Base.Float.{Float}

-- `urls[i % len(urls)]`, where `none` is the ZeroDivisionError.
pub url_at : List Text → ℕ → Option Text
url_at urls i = if eqb (length urls) 0 then none else get_elem? urls (i % length urls)

prepend : Option Text → Option (List Text) → Option (List Text)
prepend none rest = none
prepend (some url) none = none
prepend (some url) (some urls) = some (url ∷ urls)

-- The requests from the i-th on.
pub distribute_from : List Text → (i n : ℕ) → Option (List Text)
unfolding url_at prepend
distribute_from urls i zero = some []
distribute_from urls i (suc n) = prepend (url_at urls i) (distribute_from urls (suc i) n)

-- `_distribute_urls`
pub distribute_urls : List Text → (total_requests : ℕ) → Option (List Text)
unfolding distribute_from
distribute_urls urls total_requests = distribute_from urls 0 total_requests

-- How a request ends: with a response, with an httpx.HTTPError of some name, or with another
-- exception.
pub data Sent : Type 0 where
  answered : (status_code : ℕ) → Sent
  http_error : (name : Text) → Sent
  other_error : Sent

-- `Counter`
pub count_up : Text → Dict ℕ → Dict ℕ
unfolding insert lookup
count_up k d = insert k (get_or 0 (lookup k d) + 1) d

-- The semaphore of a ramp: how many permits were granted, and how many it has been given.
pub record Permits : Type 0 where
  pub granted : ℕ
  pub released : ℕ

-- The inner loop of `_ramp_up`, n rounds of it.
grant : (n : ℕ) → Permits → Permits
grant zero s = s
grant (suc n) s = grant n (record { granted = s.granted + 1; released = s.released + 1 })

-- `while granted < target`
pub grant_up_to : (target : ℕ) → Permits → Permits
unfolding grant
grant_up_to target s = grant (target - s.granted) s

module _ ⦃fl : Float⦄ where
  open fl use {F, lt, times, over, of_ℕ, trunc}

  at_least_one : ℕ → ℕ
  at_least_one n = if ltb n 1 then 1 else n

  -- `min(1.0, x)`
  at_most_one : F → F
  at_most_one x = if lt x (of_ℕ 1) then x else of_ℕ 1

  -- `_ramp_capacity`
  pub ramp_capacity : (concurrency : ℕ) → (ramp_seconds elapsed_seconds : F) → ℕ
  unfolding at_least_one at_most_one
  ramp_capacity concurrency ramp_seconds elapsed_seconds =
      if lt (of_ℕ 0) ramp_seconds
      then at_least_one
          (trunc (times (of_ℕ concurrency) (at_most_one (over elapsed_seconds ramp_seconds))))
      else concurrency

  -- The outer loop of `_ramp_up`, over the elapsed times that its rounds read: the permits, and
  -- whether the loop has ended.
  pub ramp_rounds : (concurrency : ℕ) → F → List F → Permits → Permits × Bool
  unfolding grant_up_to ramp_capacity
  ramp_rounds concurrency ramp_seconds [] s = (s, not (ltb s.granted concurrency))
  ramp_rounds concurrency ramp_seconds (e ∷ es) s =
      let rest =
        ramp_rounds concurrency ramp_seconds es
          (grant_up_to (ramp_capacity concurrency ramp_seconds e) s) in
      if ltb s.granted concurrency then rest else (s, true)

  -- `_ramp_up`, with the semaphore that is created for it.
  pub ramp_up : (concurrency : ℕ) → F → List F → Permits × Bool
  unfolding ramp_rounds
  ramp_up concurrency ramp_seconds es =
      if lt (of_ℕ 0) ramp_seconds
      then ramp_rounds concurrency ramp_seconds es (record { granted = 1; released = 1 })
      else (record { granted = concurrency; released = concurrency }, true)

  pub record Tally : Type 0 where
    pub latencies : List F
    pub statuses : Dict ℕ

  with_status : Text → F → Tally → Tally
  unfolding count_up
  with_status k latency t = record {
    latencies = t.latencies ++ latency ∷ [];
    statuses = count_up k t.statuses;
  }

  -- `_fire`; `none` is the exception that leaves it.
  pub fire : F × Sent → Tally → Option Tally
  unfolding with_status decimal
  fire (latency, answered status_code) t = some (with_status (decimal status_code) latency t)
  fire (latency, http_error name) t = some (with_status (codes "error:" ++ name) latency t)
  fire (latency, other_error) t = none

  -- `asyncio.gather` over the requests from the i-th on: `send i url` is how the i-th one ends. An
  -- exception of one is the exception of all. The requests are listed as they were asked for; they
  -- end in any order, which the order of the latencies shows and nothing else. How a request waits for
  -- a permit of the semaphore is not part of it.
  pub fire_all : (ℕ → Text → F × Sent) → (i : ℕ) → List Text → Tally → Option Tally
  unfolding fire
  fire_all send i [] t = some t
  fire_all send i (url ∷ urls) t = elim (fire (send i url) t) [
    | none ↦ none
    | some t' ↦ fire_all send (suc i) urls t'
  ]

  min_index : (last i : ℕ) → ℕ
  min_index last i = if ltb i last then i else last

  -- `_percentile`, where `none` is the IndexError.
  pub percentile : List F → F → Option F
  unfolding min_index
  percentile [] pct = some (of_ℕ 0)
  percentile (x ∷ xs) pct =
      get_elem? (x ∷ xs) (min_index (length xs) (trunc (times pct (of_ℕ (length (x ∷ xs))))))
