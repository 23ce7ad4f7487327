-- ===== src/Base/Tables.antt =====
-- A dictionary that a comprehension or a loop builds, one entry for each element of a list.
use mathlib.Core.Path.{◌≡◌, refl, sym, ap, ◌∙◌}
use mathlib.Core.List.{List, [], ◌∷◌, ◌++◌, map}
use mathlib.Core.Option.{none, some}
use mathlib.Core.Logic.{inl, inr}
use mathlib.Core.Bool.{Bool, true, false, not, ◌&&◌}
use native.Mathlib.Omega.{arith}
use adaptive_admission_contr.Base.Codes.{Text, ◌==◌, ==_iff}
use adaptive_admission_contr.Base.Lists.{any, In}
use adaptive_admission_contr.Base.Dicts.{Dict, lookup, insert, keys, lookup-insert}

-- `len(xs) == len(set(xs))`
unfoldable pub unique : List Text → Bool
unique [] = true
unique (x ∷ xs) = not (any (λ y. x == y) xs) && unique xs

pub append_assoc {ℓ} : {A : Type ℓ} (xs ys zs : List A) → (xs ++ ys) ++ zs ≡ xs ++ (ys ++ zs)
append_assoc [] ys zs = refl
append_assoc (x ∷ xs) ys zs = ap (λ l. x ∷ l) (append_assoc xs ys zs)

pub append_nil {ℓ} : {A : Type ℓ} (xs : List A) → xs ++ [] ≡ xs
append_nil [] = refl
append_nil (x ∷ xs) = ap (λ l. x ∷ l) (append_nil xs)

module _ {κ} {B : Type 0} {V : Type κ} (name : B → Text) (f : B → V) where
  -- `{name(b): f(b) for b in bs}`, over the entries of `d`.
  unfoldable pub table : List B → Dict V → Dict V
  unfolding insert
  table [] d = d
  table (b ∷ bs) d = table bs (insert (name b) (f b) d)

  lookup-table_other :
      (bs : List B) (k : Text) (d : Dict V)
      → any (λ y. k == y) (map name bs) ≡ false
      → lookup k (table bs d) ≡ lookup k d
  unfolding table
  lookup-table_other [] k d h = refl
  lookup-table_other (b ∷ bs) k d h = ground (
    arith,
    ==_iff k (name b),
    ==_iff (name b) k,
    lookup-insert (name b) k (f b) d,
    lookup-table_other bs k (insert (name b) (f b) d),
  )

  -- Where the names differ, each element's entry is there.
  pub lookup-table :
      (bs : List B) (b : B) (d : Dict V)
      → unique (map name bs) ≡ true
      → In b bs
      → lookup (name b) (table bs d) ≡ some (f b)
  unfolding table unique
  lookup-table [] b d h i = absurd i
  lookup-table (c ∷ bs) b d h (inl e) =
      let mine = lookup-insert (name c) (name c) (f c) d in
      let rest = lookup-table_other bs (name c) (insert (name c) (f c) d) (ground arith) in
      rw e (ground (arith, mine, rest, ==_iff (name c) (name c)))
  lookup-table (c ∷ bs) b d h (inr i) = lookup-table bs b (insert (name c) (f c) d) (ground arith) i

  keys-insert_new :
      (k : Text) (v : V) (d : Dict V) → lookup k d ≡ none → keys (insert k v d) ≡ keys d ++ k ∷ []
  unfolding lookup insert
  keys-insert_new k v [] h = refl
  keys-insert_new k v ((i, w) ∷ d) h = ground (arith, keys-insert_new k v d)

  -- No element's name is among the keys.
  abbrev New : List B → Dict V → Type κ
  New bs d = (b : B) → In b bs → lookup (name b) d ≡ none

  other-name :
      (k : Text) (bs : List B) (b : B)
      → any (λ y. k == y) (map name bs) ≡ false
      → In b bs
      → (k == name b) ≡ false
  other-name k [] b h i = absurd i
  other-name k (c ∷ bs) b h (inl e) = rw e (ground arith)
  other-name k (c ∷ bs) b h (inr i) = other-name k bs b (ground arith) i

  keys-table_onto :
      (bs : List B) (d : Dict V)
      → unique (map name bs) ≡ true
      → New bs d
      → keys (table bs d) ≡ keys d ++ map name bs
  unfolding table unique
  keys-table_onto [] d h fresh = sym (append_nil (keys d))
  keys-table_onto (b ∷ bs) d h fresh =
      keys-table_onto bs (insert (name b) (f b) d) (ground arith) (λ c i. ground (
        arith,
        lookup-insert (name b) (name c) (f b) d,
        other-name (name b) bs c (ground arith) i,
        fresh c (inr i),
      ))
      ∙ ap (λ l. l ++ map name bs) (keys-insert_new (name b) (f b) d (fresh b (inl refl)))
      ∙ append_assoc (keys d) (name b ∷ []) (map name bs)

  -- The entries stand in the order of the list.
  pub keys-table : (bs : List B) → unique (map name bs) ≡ true → keys (table bs []) ≡ map name bs
  keys-table bs h = keys-table_onto bs [] h (unfold lookup in λ b i. refl)
