-- ===== src/Registry.antt =====
-- app/registry.py: the routing of a path to a backend by its longest matching prefix.
pub mod Routing
pub mod Order
mod Tests
use adaptive_admission_contr.Base.{
  ℕ, Bool, true, false, ◌&&◌, if◌then◌else◌, leb, eqb, Option, none, some, List, [], ◌∷◌, ◌++◌, map,
  length, Text, ◌==◌, codes, starts_with, Dict, lookup, insert,
}

-- `s.startswith(p)`
-- `s.endswith("/")`
pub ends_with_slash : Text → Bool
ends_with_slash [] = false
ends_with_slash (c ∷ []) = eqb c b'/'
ends_with_slash (c ∷ d ∷ s) = ends_with_slash (d ∷ s)

pub boundary : Text → Text
unfolding ends_with_slash
boundary prefix = if ends_with_slash prefix then prefix else prefix ++ codes "/"

pub prefix_matches : (path prefix : Text) → Bool
unfolding boundary starts_with
prefix_matches path prefix = if path == prefix then true else starts_with path (boundary prefix)

-- The fields of a backend's configuration that routing reads.
pub record Backend : Type 0 where
  pub name : Text
  pub path_prefix : Text

-- `sorted(entries, key=lambda entry: -len(entry[0]))`, a stable sort.
pub place : Text × Text → List (Text × Text) → List (Text × Text)
place e [] = e ∷ []
place e (f ∷ l) = if leb (length f.0) (length e.0) then e ∷ f ∷ l else f ∷ place e l

pub sort_prefixes : List (Text × Text) → List (Text × Text)
unfolding place
sort_prefixes [] = []
sort_prefixes (e ∷ l) = place e (sort_prefixes l)

pub prefix_entries : List Backend → List (Text × Text)
prefix_entries = map (λ b. (b.path_prefix, b.name))

-- The loop of `match`.
pub first_match : (path : Text) → List (Text × Text) → Option Text
unfolding prefix_matches
first_match path [] = none
first_match path (e ∷ l) = if prefix_matches path e.0 then some e.1 else first_match path l

pub record Registry (P : Type 0) : Type 0 where
  pub policies : Dict P
  pub prefixes : List (Text × Text)

-- A 404, the policy found, or an exception.
pub data Match (P : Type 0) : Type 0 where
  not_found : Match P
  found : P → Match P
  key_error : Match P

module _ {P : Type 0} where
  policies_of : (Backend → P) → List Backend → Dict P → Dict P
  policies_of policy [] d = d
  policies_of policy (b ∷ bs) d = policies_of policy bs (insert b.name (policy b) d)

  unfoldable pub registry : (Backend → P) → List Backend → Registry P
  unfolding policies_of sort_prefixes prefix_entries insert
  registry policy backends = record {
    policies = policies_of policy backends [];
    prefixes = sort_prefixes (prefix_entries backends);
  }

  policy_at : Registry P → Option Text → Match P
  unfolding lookup
  policy_at r none = not_found
  policy_at r (some name) = elim (lookup name r.policies) [ none ↦ key_error | some p ↦ found p ]

  unfoldable pub match_path : Registry P → (path : Text) → Match P
  unfolding first_match policy_at
  match_path r path = policy_at r (first_match path r.prefixes)
