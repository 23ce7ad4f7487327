-- ===== src/Registry/Routing.antt =====
-- The winner of a match is the longest matching prefix, whatever the order of the configuration.
use adaptive_admission_contr.Base.{
  ◌≤◌, ◌≡◌, refl, sym, subst, ap, ◌∙◌, ◌≢◌, ◌⊎◌, inl, inr, true, false, leb, arith, none, some,
  Bool-cases, List, [], ◌∷◌, map, length, All, In, Text, ==_iff, ==_refl, Dict, lookup, insert,
  lookup-insert, keys, table, keys-table, unique,
}
use adaptive_admission_contr.Registry.{
  prefix_matches, Backend, place, sort_prefixes, prefix_entries, first_match, not_found, found,
  policies_of, registry, policy_at, match_path,
}

abbrev Entry : Type 0
Entry = Text × Text

abbrev Longest : Entry → List Entry → Type 0
Longest e = All (λ f. length f.0 ≤ length e.0)

-- Longest prefix first.
abbrev Descending : List Entry → Type 0
Descending [] = Unit {0}
Descending (e ∷ l) = Longest e l × Descending l

All-place : (P : Entry → Type 0) (e : Entry) (l : List Entry) → P e → All P l → All P (place e l)
unfolding place
All-place P e [] p all = (p, tt)
All-place P e (f ∷ l) p all = elim (Bool-cases (leb (length f.0) (length e.0))) [
  | inl before ↦ rw before (p, all)
  | inr after ↦ rw after (all.0, All-place P e l p all.1)
]

Longest-mono : (e f : Entry) (l : List Entry) → length f.0 ≤ length e.0 → Longest f l → Longest e l
Longest-mono e f [] h all = tt
Longest-mono e f (g ∷ l) h all = (omega arith, Longest-mono e f l h all.1)

place-Descending : (e : Entry) (l : List Entry) → Descending l → Descending (place e l)
unfolding place
place-Descending e [] d = (tt, tt)
place-Descending e (f ∷ l) d = elim (Bool-cases (leb (length f.0) (length e.0))) [
  | inl before ↦ rw before ((ground arith, Longest-mono e f l (ground arith) d.0), d)
  | inr after ↦
      rw after
        (All-place (λ g. length g.0 ≤ length f.0) e l (ground arith) d.0, place-Descending e l d.1)
]

sort_prefixes-Descending : (l : List Entry) → Descending (sort_prefixes l)
unfolding sort_prefixes
sort_prefixes-Descending [] = tt
sort_prefixes-Descending (e ∷ l) = place-Descending e (sort_prefixes l) (sort_prefixes-Descending l)

All-sort : (P : Entry → Type 0) (l : List Entry) → All P l → All P (sort_prefixes l)
unfolding sort_prefixes
All-sort P [] all = tt
All-sort P (e ∷ l) all = All-place P e (sort_prefixes l) all.0 (All-sort P l all.1)

place-All : (P : Entry → Type 0) (e : Entry) (l : List Entry) → All P (place e l) → P e × All P l
unfolding place
place-All P e [] all = (all.0, tt)
place-All P e (f ∷ l) all = elim (Bool-cases (leb (length f.0) (length e.0))) [
  | inl before ↦ let all' = rw before at all in (all'.0, all'.1)
  | inr after ↦
      let all' = rw after at all in let (p, rest) = place-All P e l all'.1 in (p, (all'.0, rest))
]

sort-All : (P : Entry → Type 0) (l : List Entry) → All P (sort_prefixes l) → All P l
unfolding sort_prefixes
sort-All P [] all = tt
sort-All P (e ∷ l) all =
    let (p, rest) = place-All P e (sort_prefixes l) all in (p, sort-All P l rest)

-- The loop finds an entry that matches, no shorter than any other that does; or nothing matches.
abbrev Beaten : Text → Entry → Entry → Type 0
Beaten path e f = prefix_matches path f.0 ≡ true → length f.0 ≤ length e.0

Wins : Text → List Entry → Entry → Type 0
Wins path l e =
    (prefix_matches path e.0 ≡ true)
    × All (λ f. prefix_matches path f.0 ≡ true → length f.0 ≤ length e.0) l

first_match-Wins :
    (path : Text) (l : List Entry)
    → Descending l
    → ((first_match path l ≡ none) × All (λ f. prefix_matches path f.0 ≡ false) l)
      ⊎ ((e : Entry) × In e l × (first_match path l ≡ some e.1) × Wins path l e)
unfolding first_match Wins
first_match-Wins path [] d = inl (refl, tt)
first_match-Wins path (e ∷ l) d = elim (Bool-cases (prefix_matches path e.0)) [
  | inl hit ↦ inr (e, inl refl, rw hit, (hit, ((λ _. omega arith), longest_wins l d.0)))
  | inr miss ↦ elim (first_match-Wins path l d.1) [
    | inl (nothing, all) ↦ inl (rw miss nothing, (miss, all))
    | inr (f, mem, first, wins) ↦
        inr (f, inr mem, rw miss first, (wins.0, ((λ hit. cc (miss, hit)), wins.1)))
  ]
]
  where
    longest_wins :
        (l : List Entry)
        → Longest e l
        → All (λ f. prefix_matches path f.0 ≡ true → length f.0 ≤ length e.0) l
    longest_wins [] all = tt
    longest_wins (f ∷ l) all = ((λ _. all.0), longest_wins l all.1)

All-In : {A : Type 0} (P : A → Type 0) (l : List A) (x : A) → All P l → In x l → P x
All-In P (y ∷ l) x all (inl e) = subst P (sym e) all.0
All-In P (y ∷ l) x all (inr m) = All-In P l x all.1 m
All-In P [] x all m = elim m [ ]

In-All : {A : Type 0} (P : A → Type 0) (l : List A) → ((x : A) → In x l → P x) → All P l
In-All P [] h = tt
In-All P (y ∷ l) h = (h y (inl refl), In-All P l (λ x m. h x (inr m)))

In-map :
    {A B : Type 0} (f : A → B) (l : List A) (y : B) → In y (map f l) → (x : A) × In x l × (y ≡ f x)
In-map f (x ∷ l) y (inl e) = (x, inl refl, e)
In-map f (x ∷ l) y (inr m) = let (z, mem, e) = In-map f l y m in (z, inr mem, e)
In-map f [] y m = elim m [ ]

map-In : {A B : Type 0} (f : A → B) (l : List A) (x : A) → In x l → In (f x) (map f l)
map-In f (y ∷ l) x (inl e) = inl (ap f e)
map-In f (y ∷ l) x (inr m) = inr (map-In f l x m)
map-In f [] x m = elim m [ ]

-- The configuration's names are distinct, which its validation checks.
abbrev pub UniqueNames : List Backend → Type 0
UniqueNames [] = Unit {0}
UniqueNames (b ∷ bs) = All (λ c. b.name ≢ c.name) bs × UniqueNames bs

module _ {P : Type 0} (policy : Backend → P) where
  lookup-policies_absent :
      (bs : List Backend) (k : Text) (d : Dict P)
      → All (λ c. k ≢ c.name) bs
      → lookup k (policies_of policy bs d) ≡ lookup k d
  unfolding policies_of
  lookup-policies_absent [] k d all = refl
  lookup-policies_absent (b ∷ bs) k d all =
      lookup-policies_absent bs k (insert b.name (policy b) d) all.1
      ∙ ground (arith, lookup-insert b.name k (policy b) d, ==_iff b.name k)

  lookup-policies :
      (bs : List Backend) (b : Backend) (d : Dict P)
      → UniqueNames bs
      → In b bs
      → lookup b.name (policies_of policy bs d) ≡ some (policy b)
  unfolding policies_of
  lookup-policies (c ∷ bs) b d u (inl e) = rw e (
      lookup-policies_absent bs c.name (insert c.name (policy c) d) u.0
      ∙ rw (lookup-insert c.name c.name (policy c) d, ==_refl c.name))
  lookup-policies (c ∷ bs) b d u (inr m) = lookup-policies bs b (insert c.name (policy c) d) u.1 m
  lookup-policies [] b d u m = elim m [ ]

  found_at :
      (backends : List Backend) (b : Backend)
      → UniqueNames backends
      → In b backends
      → policy_at (registry policy backends) (some b.name) ≡ found (policy b)
  unfolding policy_at registry
  found_at backends b u m = rw (lookup-policies backends b [] u m, policy_at)

  -- With distinct names, a path is routed to the policy of a configured backend whose prefix
  -- matches it and is no shorter than any other configured prefix that matches; it is not found
  -- exactly when no configured prefix matches; and no other outcome occurs.
  pub match_path-longest :
      (backends : List Backend) (path : Text)
      → UniqueNames backends
      → ((match_path (registry policy backends) path ≡ not_found)
          × ((c : Backend) → In c backends → prefix_matches path c.path_prefix ≡ false))
        ⊎ ((b : Backend) × In b backends
            × (match_path (registry policy backends) path ≡ found (policy b))
            × (prefix_matches path b.path_prefix ≡ true)
            × ((c : Backend)
                → In c backends
                → prefix_matches path c.path_prefix ≡ true
                → length c.path_prefix ≤ length b.path_prefix))
  unfolding match_path registry policy_at prefix_entries Wins
  match_path-longest backends path u =
      let l = prefix_entries backends in
      elim (first_match-Wins path (sort_prefixes l) (sort_prefixes-Descending l)) [
        | inl (nothing, none_match) ↦ inl (
          rw (nothing, policy_at),
          λ c m.
              All-In (λ f. prefix_matches path f.0 ≡ false) l (c.path_prefix, c.name)
                (sort-All (λ f. prefix_matches path f.0 ≡ false) l none_match)
                (map-In (λ b. (b.path_prefix, b.name)) backends c m),
        )
        | inr (e, mem, first, (hit, wins)) ↦
            let listed =
              All-In (λ f. In f l) (sort_prefixes l) e
                (All-sort (λ f. In f l) l (In-All (λ f. In f l) l (λ x m. m))) mem in
            let (b, configured, same) = In-map (λ b. (b.path_prefix, b.name)) backends e listed in
            inr (
              b,
              configured,
              ap (policy_at (registry policy backends)) (first ∙ ap (λ f. some f.1) same)
                  ∙ found_at backends b u configured,
              subst (λ f. prefix_matches path f.0 ≡ true) same hit,
              λ c m matches.
                  subst (λ f. length c.path_prefix ≤ length f.0) same
                    (All-In ((Beaten path e)) l (c.path_prefix, c.name)
                      (sort-All ((Beaten path e)) l wins)
                      (map-In (λ b. (b.path_prefix, b.name)) backends c m) matches),
            )
      ]

policies_of-table :
    {P : Type 0} (policy : Backend → P) (bs : List Backend) (d : Dict P)
    → policies_of policy bs d ≡ table (λ b. b.name) policy bs d
unfolding policies_of table
policies_of-table policy [] d = refl
policies_of-table policy (b ∷ bs) d = policies_of-table policy bs (insert b.name (policy b) d)

-- The policies stand in the order of the configuration.
pub registry-keys :
    {P : Type 0} (policy : Backend → P) (bs : List Backend)
    → unique (map (λ b. b.name) bs) ≡ true
    → keys (registry policy bs).policies ≡ map (λ b. b.name) bs
unfolding registry
registry-keys policy bs h =
    ap (λ d. map (λ e. e.0) d) (policies_of-table policy bs [])
    ∙ keys-table (λ b. b.name) policy bs h
