-- ===== src/LoadTest/Tests.antt =====
-- A ramp to three permits over two seconds, and four requests to two URLs, one of which fails.
use adaptive_admission_contr.Base.{
  ℕ, ◌≡◌, refl, inl, inr, true, false, arith, some, if◌then◌else◌, eqb, List, [], ◌∷◌, ◌++◌, Text,
  ◌==◌, codes, lookup, insert, decimal,
}
use adaptive_admission_contr.Base.Float.{Float, fixed_point}
use adaptive_admission_contr.LoadTest.{
  ramp_up, Sent, answered, http_error, Tally, distribute_urls, fire_all, percentile,
}
use adaptive_admission_contr.LoadTest.Ramp.{IsWithin, fixed_point-IsFraction, ramp_up-completes}
use adaptive_admission_contr.LoadTest.Counted.{IsTallied, fire_all-distribute_urls}

instance abbrev clock : Float
clock = fixed_point

half_way : ramp_up 3 2000 (1000 ∷ 1500 ∷ []) ≡ (record { granted = 2; released = 2 }, false)
unfolding ramp_up
half_way = refl

ramp_up-completes_example :
    IsWithin 3 (ramp_up 3 2000 (1000 ∷ 1500 ∷ [])).0
    × ((ramp_up 3 2000 ((1000 ∷ 1500 ∷ []) ++ 2100 ∷ [])).1 ≡ true)
    × ((ramp_up 3 2000 ((1000 ∷ 1500 ∷ []) ++ 2100 ∷ [])).0 ≡ record { granted = 3; released = 3 })
ramp_up-completes_example =
    ramp_up-completes fixed_point-IsFraction 3 2000 (1000 ∷ 1500 ∷ []) (2100 ∷ []) (omega arith)
      (omega arith) (inr (2100, inr (inr (inl refl)), refl))

abbrev urls : List Text
urls = codes "a" ∷ codes "b" ∷ []

round_robin : distribute_urls urls 3 ≡ some (codes "a" ∷ codes "b" ∷ codes "a" ∷ [])
unfolding distribute_urls
round_robin = refl

abbrev send : ℕ → Text → ℕ × Sent
send i url = if eqb i 2 then (7, http_error (codes "ReadTimeout")) else (5, answered 200)

counted :
    fire_all send 0
      (codes "a" ∷ codes "b" ∷ codes "a" ∷ codes "b" ∷ [])
      (record { latencies = []; statuses = [] })
    ≡ some (record {
      latencies = 5 ∷ 5 ∷ 7 ∷ 5 ∷ [];
      statuses = (codes "200", 3) ∷ (codes "error:ReadTimeout", 1) ∷ [];
    })
unfolding fire_all lookup insert ◌==◌ decimal
counted = refl

fire_all-distribute_urls_example :
    (l : List Text) × (distribute_urls urls 4 ≡ some l)
    × (t : Tally) × (fire_all send 0 l (record { latencies = []; statuses = [] }) ≡ some t)
    × IsTallied 4 t
fire_all-distribute_urls_example =
    fire_all-distribute_urls send urls 4 (λ e. cc) (λ i url e. ground arith)

median : percentile (1000 ∷ 2000 ∷ 3000 ∷ []) 500 ≡ some 2000
unfolding percentile
median = refl
