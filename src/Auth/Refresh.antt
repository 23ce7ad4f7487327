-- ===== src/Auth/Refresh.antt =====
-- What a key set with a key that is no RSA key does to the verifier.
use adaptive_admission_contr.Base.{
  ◌≡◌, refl, ap, inl, inr, true, false, none, some, List, [], ◌∷◌, ◌++◌, In, Text, Dict, insert,
  arith, Option-cases,
}
use adaptive_admission_contr.Auth.{
  Jwt, Fetched, key_set, Verifier, keys_from, replace_keys, safe_refresh, initial_fetch,
  refresh_loop,
}

module _ (jwt : Jwt) where
  open jwt use {Key, Jwk, kid_of, from_jwk}

  keys_from-bad :
      (ks : List Jwk) (d : Dict Key) (k : Jwk) (kid : Text)
      → In k ks
      → kid_of k ≡ some kid
      → from_jwk k ≡ none
      → keys_from jwt ks d ≡ none
  unfolding keys_from
  keys_from-bad [] d k kid i named bad = absurd i
  keys_from-bad (x ∷ ks) d k kid (inl same) named bad = ground (arith, same, named, bad)
  keys_from-bad (x ∷ ks) d k kid (inr i) named bad = elim (Option-cases (kid_of x)) [
    | inl anon ↦ rw (anon, keys_from) (keys_from-bad ks d k kid i named bad)
    | inr (id, has) ↦ elim (Option-cases (from_jwk x)) [
      | inl worse ↦ rw (has, worse, keys_from) refl
      | inr (key, good) ↦
          rw (has, good, keys_from) (keys_from-bad ks (insert id key d) k kid i named bad)
    ]
  ]

  safe_refresh-bad :
      (v : Verifier jwt) (ks : List Jwk) (k : Jwk) (kid : Text)
      → In k ks
      → kid_of k ≡ some kid
      → from_jwk k ≡ none
      → safe_refresh jwt (key_set ks) v ≡ none
  unfolding safe_refresh replace_keys
  safe_refresh-bad v ks k kid i named bad = rw (keys_from-bad ks [] k kid i named bad) refl

  -- A key set in which one key with a `kid` is no RSA key is enough: fetched at the start, it makes
  -- the start raise when verification is on; fetched later, it ends the refresh loop with the keys
  -- of before, and no later key set is ever used.
  pub refresh_loop-bad :
      (v w : Verifier jwt) (fs rest : List (Fetched Jwk)) (ks : List Jwk) (k : Jwk) (kid : Text)
      → In k ks
      → kid_of k ≡ some kid
      → from_jwk k ≡ none
      → refresh_loop jwt fs v ≡ (w, true)
      → (v.config.enabled ≡ true → initial_fetch jwt (key_set ks) v ≡ none)
        × (refresh_loop jwt (fs ++ key_set ks ∷ rest) v ≡ (w, false))
  unfolding initial_fetch refresh_loop
  refresh_loop-bad v w [] rest ks k kid i named bad e =
      let fails = safe_refresh-bad v ks k kid i named bad in
      (λ on. ground (arith, fails), rw (fails, refresh_loop) (ap (λ x. (x.0, false)) e))
  refresh_loop-bad v w (f ∷ fs) rest ks k kid i named bad e =
      let fails = safe_refresh-bad v ks k kid i named bad in
      (
        λ on. ground (arith, fails),
        elim (Option-cases (safe_refresh jwt f v)) [
          | inl broke ↦ ground (arith, broke, e)
          | inr (u, fine) ↦
              rw (fine, refresh_loop)
                (refresh_loop-bad u w fs rest ks k kid i named bad (ground (arith, fine, e))).1
        ],
      )
