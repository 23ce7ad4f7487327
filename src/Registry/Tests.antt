-- ===== src/Registry/Tests.antt =====
-- Two of the configured backends, and paths that tell them apart.
use adaptive_admission_contr.Base.{
  ◌≤◌, ◌≡◌, refl, ◌⊎◌, true, false, arith, List, [], ◌∷◌, length, In, Text, ◌==◌, codes, lookup,
  insert,
}
use adaptive_admission_contr.Registry.{
  prefix_matches, Backend, registry, found, not_found, match_path,
}
use adaptive_admission_contr.Registry.Routing.{UniqueNames, match_path-longest}

abbrev replay : Backend
replay = record { name = codes "r"; path_prefix = codes "/a" }

abbrev patching : Backend
patching = record { name = codes "p"; path_prefix = codes "/a/b" }

abbrev configured : List Backend
configured = replay ∷ patching ∷ []

abbrev name_of : Backend → Text
name_of b = b.name

nested : match_path (registry name_of configured) (codes "/a/b/x") ≡ found (codes "p")
unfolding match_path registry lookup insert ◌==◌
nested = refl

not_a_segment : match_path (registry name_of configured) (codes "/ab") ≡ not_found
unfolding match_path registry lookup insert ◌==◌
not_a_segment = refl

configured-UniqueNames : UniqueNames configured
configured-UniqueNames = (((λ e. ground arith), tt), (tt, tt))

match_path-longest_example :
    ((match_path (registry name_of configured) (codes "/a/b/x") ≡ not_found)
      × ((c : Backend) → In c configured → prefix_matches (codes "/a/b/x") c.path_prefix ≡ false))
    ⊎ ((b : Backend) × In b configured
        × (match_path (registry name_of configured) (codes "/a/b/x") ≡ found (name_of b))
        × (prefix_matches (codes "/a/b/x") b.path_prefix ≡ true)
        × ((c : Backend)
            → In c configured
            → prefix_matches (codes "/a/b/x") c.path_prefix ≡ true
            → length c.path_prefix ≤ length b.path_prefix))
match_path-longest_example =
    match_path-longest name_of configured (codes "/a/b/x") configured-UniqueNames
