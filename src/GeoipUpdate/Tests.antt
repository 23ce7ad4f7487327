-- ===== src/GeoipUpdate/Tests.antt =====
-- A refresh that succeeds, and one of the wrong edition.
use adaptive_admission_contr.Base.{
  ◌≡◌, ◌⊎◌, refl, true, arith, some, [], ◌∷◌, ◌==◌, codes, lookup, insert, delete,
}
use adaptive_admission_contr.GeoipUpdate.{
  Files, World, content, members, metadata, written, exits, main, extract_mmdb,
}
use adaptive_admission_contr.GeoipUpdate.Steps.{IsUnchanged}
use adaptive_admission_contr.GeoipUpdate.Safe.{IsInstalled, main-IsSafe}

abbrev world : World
world = record {
  account_id = some (codes "a");
  license_key = some (codes "k");
  download = content (codes "t");
  untar =
      λ t. members ((codes "c.mmdb", some (codes "new")) ∷ (codes "README", some (codes "r")) ∷ []);
  open_database = λ b. metadata (codes "City");
  probe = written (codes "p");
  temporary = written (codes "q");
  replace_works = true;
}

abbrev files : Files
files = (codes "d", codes "old") ∷ []

installs : main world (codes "City") (codes "d") files ≡ (exits 0, (codes "d", codes "new") ∷ [])
unfolding main extract_mmdb insert delete ◌==◌
installs = refl

wrong_edition : main world (codes "ASN") (codes "d") files ≡ (exits 6, files)
unfolding main extract_mmdb insert delete ◌==◌
wrong_edition = refl

main-IsSafe_example :
    IsInstalled world (codes "City") (codes "d") files (main world (codes "City") (codes "d") files)
    ⊎ IsUnchanged files (main world (codes "City") (codes "d") files)
unfolding lookup ◌==◌
main-IsSafe_example =
    main-IsSafe world (codes "City") (codes "d") files (refl, tt) (refl, λ e. ground arith)
      (refl, λ e. ground arith)
