-- ===== src/Base/Sizes.antt =====
-- How many entries a dictionary has after an update.
use Prim.Native.Nat.{◌+◌, ◌≤◌}
use mathlib.Core.Path.{◌≡◌}
use mathlib.Core.List.{[], ◌∷◌}
use mathlib.Core.Option.{none, some}
use native.Mathlib.Omega.{arith}
use adaptive_admission_contr.Base.Lists.{length}
use adaptive_admission_contr.Base.Codes.{Text}
use adaptive_admission_contr.Base.Dicts.{Dict, lookup, insert, delete}

module _ {ℓ} {V : Type ℓ} where
  pub length-insert-le : (k : Text) (v : V) (d : Dict V) → length (insert k v d) ≤ length d + 1
  unfolding insert
  length-insert-le k v [] = omega arith
  length-insert-le k v ((i, w) ∷ d) = ground (arith, length-insert-le k v d)

  pub length-insert_new :
      (k : Text) (v : V) (d : Dict V) → lookup k d ≡ none → length (insert k v d) ≡ length d + 1
  unfolding lookup insert
  length-insert_new k v [] h = omega arith
  length-insert_new k v ((i, w) ∷ d) h = ground (arith, length-insert_new k v d)

  pub length-delete :
      (k : Text) (v : V) (d : Dict V) → lookup k d ≡ some v → length (delete k d) + 1 ≡ length d
  unfolding lookup delete
  length-delete k v [] h = cc
  length-delete k v ((i, w) ∷ d) h = ground (arith, length-delete k v d)
