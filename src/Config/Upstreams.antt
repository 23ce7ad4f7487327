-- ===== src/Config/Upstreams.antt =====
-- What the check for duplicate upstreams gives to the load balancer.
use adaptive_admission_contr.Base.{
  ◌≡◌, ◌≢◌, refl, inl, inr, true, List, [], ◌∷◌, ◌++◌, Text, ==_iff, in_list, In, arith,
}
use adaptive_admission_contr.Config.{rstrip, check_seen, check_unique_upstreams}

-- No two of the urls are the same up to their last slashes, and none is one of those seen.
abbrev pub Differ : List Text → Type 0
Differ [] = Unit {0}
Differ (url ∷ urls) = ((other : Text) → In other urls → rstrip url ≢ rstrip other) × Differ urls

in_list-In : (x : Text) (xs : List Text) → In x xs → in_list x xs ≡ true
unfolding in_list
in_list-In x [] i = absurd i
in_list-In x (y ∷ ys) (inl e) = ground (arith, e, ==_iff x y)
in_list-In x (y ∷ ys) (inr i) = ground (arith, in_list-In x ys i)

check_seen-In :
    (seen urls : List Text) (x u : Text)
    → check_seen seen urls ≡ true
    → In x seen
    → In u urls
    → x ≢ rstrip u
unfolding check_seen
check_seen-In seen [] x u h i j = absurd j
check_seen-In seen (v ∷ urls) x u h i (inl e) =
    λ same. ground (arith, h, in_list-In x seen i, e, same)
check_seen-In seen (v ∷ urls) x u h i (inr j) =
    check_seen-In (rstrip v ∷ seen) urls x u (ground (arith, h)) (inr i) j

check_seen-Differ : (seen urls : List Text) → check_seen seen urls ≡ true → Differ urls
unfolding check_seen
check_seen-Differ seen [] h = tt
check_seen-Differ seen (u ∷ urls) h = (
  λ other i. check_seen-In (rstrip u ∷ seen) urls (rstrip u) other (ground (arith, h)) (inl refl) i,
  check_seen-Differ (rstrip u ∷ seen) urls (ground (arith, h)),
)

-- The instances of a backend that passes the validation differ pairwise, primaries and backups
-- together, and not only by a slash at the end: so no instance is counted under two names.
pub check_unique_upstreams-Differ :
    (upstreams backups : List Text)
    → check_unique_upstreams upstreams backups ≡ true
    → Differ (upstreams ++ backups)
unfolding check_unique_upstreams
check_unique_upstreams-Differ upstreams backups h = check_seen-Differ [] (upstreams ++ backups) h
