-- ===== src/Config/Backends.antt =====
-- What `_check_backends` gives to routing.
use adaptive_admission_contr.Base.{
  unique, ◌≡◌, ◌≢◌, inl, inr, true, false, any, All, In, List, [], ◌∷◌, map, Text, ◌==◌, ==_iff,
  arith,
}
use adaptive_admission_contr.Registry.{Backend, registry, match_path}
use adaptive_admission_contr.Registry.Routing.{UniqueNames}
use adaptive_admission_contr.Registry.Order.{UniquePrefixes, match_path-order_free}
use adaptive_admission_contr.Config.{check_backends}

any-names :
    (k : Text) (bs : List Backend)
    → any (λ y. k == y) (map (λ b. b.name) bs) ≡ false
    → All (λ c. k ≢ c.name) bs
any-names k [] h = tt
any-names k (b ∷ bs) h = ((λ e. ground (arith, ==_iff k b.name)), any-names k bs (ground arith))

unique-UniqueNames : (bs : List Backend) → unique (map (λ b. b.name) bs) ≡ true → UniqueNames bs
unfolding unique
unique-UniqueNames [] h = tt
unique-UniqueNames (b ∷ bs) h =
    (any-names b.name bs (ground arith), unique-UniqueNames bs (ground arith))

any-prefixes :
    (k : Text) (bs : List Backend) (c : Backend)
    → any (λ y. k == y) (map (λ b. b.path_prefix) bs) ≡ false
    → In c bs
    → k ≢ c.path_prefix
any-prefixes k [] c h i = absurd i
any-prefixes k (b ∷ bs) c h (inl e) = λ same. ground (arith, ==_iff k b.path_prefix, e, same)
any-prefixes k (b ∷ bs) c h (inr i) = any-prefixes k bs c (ground arith) i

unique-UniquePrefixes :
    (bs : List Backend) → unique (map (λ b. b.path_prefix) bs) ≡ true → UniquePrefixes bs
unfolding unique
unique-UniquePrefixes [] h b c i j e = absurd i
unique-UniquePrefixes (d ∷ bs) h b c (inl p) (inl q) e = ground (arith, p, q)
unique-UniquePrefixes (d ∷ bs) h b c (inl p) (inr j) e =
    absurd (any-prefixes d.path_prefix bs c (ground arith) j (ground (arith, p, e)))
unique-UniquePrefixes (d ∷ bs) h b c (inr i) (inl q) e =
    absurd (any-prefixes d.path_prefix bs b (ground arith) i (ground (arith, q, e)))
unique-UniquePrefixes (d ∷ bs) h b c (inr i) (inr j) e =
    unique-UniquePrefixes bs (ground arith) b c i j e

pub check_backends-UniqueNames : (bs : List Backend) → check_backends bs ≡ true → UniqueNames bs
unfolding check_backends
check_backends-UniqueNames bs h = unique-UniqueNames bs (ground arith)

-- Two configurations that pass the validation of their backends and list the same backends, in any
-- order, route every path alike.
pub check_backends-order_free :
    {P : Type 0} (policy : Backend → P) (l l' : List Backend) (path : Text)
    → check_backends l ≡ true
    → check_backends l' ≡ true
    → ((b : Backend) → (In b l → In b l') × (In b l' → In b l))
    → match_path (registry policy l) path ≡ match_path (registry policy l') path
unfolding check_backends
check_backends-order_free policy l l' path h h' same =
    match_path-order_free policy l l' path (unique-UniqueNames l (ground arith))
      (unique-UniqueNames l' (ground arith)) (unique-UniquePrefixes l (ground arith)) same
