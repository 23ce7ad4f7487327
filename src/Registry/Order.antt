-- ===== src/Registry/Order.antt =====
-- Two prefixes of one length never compete, so the order of the configuration does not matter.
use adaptive_admission_contr.Base.{
  starts_with, ◌≡◌, refl, sym, ap, ◌∙◌, ◌↔◌, inl, inr, true, arith, List, [], ◌∷◌, ◌++◌, length, In,
  Text, ==_iff, codes,
}
use adaptive_admission_contr.Registry.{
  boundary, prefix_matches, Backend, registry, found, match_path,
}
use adaptive_admission_contr.Registry.Routing.{UniqueNames, match_path-longest}

starts_with_self : (s : Text) → starts_with s s ≡ true
unfolding starts_with
starts_with_self [] = refl
starts_with_self (c ∷ s) = ground (arith, starts_with_self s)

starts_with-append : (s p r : Text) → starts_with s (p ++ r) ≡ true → starts_with s p ≡ true
unfolding starts_with
starts_with-append s [] r h = refl
starts_with-append [] (d ∷ p) r h = h
starts_with-append (c ∷ s) (d ∷ p) r h = ground (arith, starts_with-append s p r)

prefix_matches-starts_with :
    (path p : Text) → prefix_matches path p ≡ true → starts_with path p ≡ true
unfolding prefix_matches boundary
prefix_matches-starts_with path p h =
    ground (arith, ==_iff path p, starts_with_self p, starts_with-append path p (codes "/"))

starts_with_unique :
    (s p q : Text) → starts_with s p ≡ true → starts_with s q ≡ true → length p ≡ length q → p ≡ q
unfolding starts_with
starts_with_unique s [] [] hp hq e = refl
starts_with_unique s [] (d ∷ q) hp hq e = absurd (omega arith)
starts_with_unique s (d ∷ p) [] hp hq e = absurd (omega arith)
starts_with_unique [] (d ∷ p) (d' ∷ q) hp hq e = cc
starts_with_unique (c ∷ s) (d ∷ p) (d' ∷ q) hp hq e = ground (arith, starts_with_unique s p q)

-- The configuration's prefixes are distinct, which its validation checks.
abbrev pub UniquePrefixes : List Backend → Type 0
UniquePrefixes l = (b c : Backend) → In b l → In c l → b.path_prefix ≡ c.path_prefix → b ≡ c

module _ {P : Type 0} (policy : Backend → P) where
  -- Two configurations with the same backends, in any order, route every path alike.
  pub match_path-order_free :
      (l l' : List Backend) (path : Text)
      → UniqueNames l
      → UniqueNames l'
      → UniquePrefixes l
      → ((b : Backend) → In b l ↔ In b l')
      → match_path (registry policy l) path ≡ match_path (registry policy l') path
  match_path-order_free l l' path u u' distinct same = elim (match_path-longest policy l path u) [
    | inl (none, no_match) ↦ elim (match_path-longest policy l' path u') [
      | inl (none', _) ↦ none ∙ sym none'
      | inr (b, mem, _, hit, _) ↦ cc (no_match b ((same b).1 mem), hit)
    ]
    | inr (b, mem, one, hit, longest) ↦ elim (match_path-longest policy l' path u') [
      | inl (_, no_match) ↦ cc (no_match b ((same b).0 mem), hit)
      | inr (c, mem', other, hit', longest') ↦
          let mem_c = (same c).1 mem' in
          let lengths : length b.path_prefix ≡ length c.path_prefix =
            omega (arith, longest c mem_c hit', longest' b ((same b).0 mem) hit) in
          let prefixes =
            starts_with_unique path b.path_prefix c.path_prefix
              (prefix_matches-starts_with path b.path_prefix hit)
              (prefix_matches-starts_with path c.path_prefix hit') lengths in
          one ∙ ap (λ x. found (policy x)) (distinct b c mem mem_c prefixes) ∙ sym other
    ]
  ]
