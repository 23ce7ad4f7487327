-- ===== src/GeoipUpdate/Steps.antt =====
-- What the steps that touch the files leave.
use adaptive_admission_contr.Base.{
  ℕ, ◌≡◌, ◌≢◌, refl, ap, ◌⊎◌, inl, inr, Bool, true, false, none, some, Text, ◌==◌, ==_iff, lookup,
  insert, delete, Distinct, lookup-insert, lookup-delete, insert-Distinct, arith, Bool-cases,
}
use adaptive_admission_contr.GeoipUpdate.{
  Files, Opened, invalid_database, open_raises, metadata, TempFile, no_file, partial, written,
  exit_ok, Ended, exits, raises, goes_on, ends, after_open, replace, atomic_write,
}

-- The name of a temporary file is no file's, and it is not the destination's.
abbrev pub IsFresh : Text → Files → TempFile → Type 0
IsFresh dest fs no_file = Unit
IsFresh dest fs (partial path part) = (lookup path fs ≡ none) × (path ≢ dest)
IsFresh dest fs (written path) = (lookup path fs ≡ none) × (path ≢ dest)

-- The run ends without success, and every file that was there is as it was.
pub record IsUnchanged (fs : Files) (r : Ended × Files) : Type 0 where
  pub failed : r.0 ≢ exits exit_ok
  pub same : (k : Text) → lookup k fs ≢ none → lookup k r.1 ≡ lookup k fs

pub code-ne : (n : ℕ) → n ≢ exit_ok → exits n ≢ exits exit_ok
code-ne n h = λ e. h cc

pub untouched : (fs : Files) (e : Ended) → e ≢ exits exit_ok → IsUnchanged fs (e, fs)
untouched fs e h = record { failed = h; same = λ k there. refl }

-- A temporary file that is removed leaves nothing behind.
pub lookup-removed :
    (path bytes : Text) (fs : Files) (k : Text)
    → Distinct fs
    → lookup path fs ≡ none
    → lookup k (delete path (insert path bytes fs)) ≡ lookup k fs
lookup-removed path bytes fs k d fresh = ground (
  arith,
  fresh,
  ==_iff path k,
  lookup-insert path k bytes fs,
  lookup-delete path k (insert path bytes fs) (insert-Distinct path bytes fs d),
)

pub lookup-partial :
    (path part : Text) (fs : Files) (k : Text)
    → lookup path fs ≡ none
    → lookup k fs ≢ none
    → lookup k (insert path part fs) ≡ lookup k fs
lookup-partial path part fs k fresh there = elim (Bool-cases (path == k)) [
  | inl same ↦ absurd (there (ground (arith, same, fresh, ==_iff path k)))
  | inr other ↦ ground (arith, other, lookup-insert path k part fs)
]

-- What the last step leaves.
pub record IsReplaced (dest bytes : Text) (fs : Files) (r : Ended × Files) : Type 0 where
  pub succeeded : r.0 ≡ exits exit_ok
  pub at_dest : lookup dest r.1 ≡ some bytes
  pub elsewhere : (k : Text) → k ≢ dest → lookup k r.1 ≡ lookup k fs

replaces-IsReplaced :
    (path bytes dest : Text) (fs : Files)
    → Distinct fs
    → lookup path fs ≡ none
    → IsReplaced dest bytes fs (exits exit_ok, replace bytes path dest (insert path bytes fs))
unfolding replace
replaces-IsReplaced path bytes dest fs d fresh =
    let cleared = delete path (insert path bytes fs) in
    record {
      succeeded = refl;
      at_dest = ground (arith, lookup-insert dest dest bytes cleared, ==_iff dest dest);
      elsewhere = λ k other. ground (
        arith,
        lookup-insert dest k bytes cleared,
        ==_iff dest k,
        lookup-removed path bytes fs k d fresh,
        other,
      );
    }

pub atomic_write-cases :
    (works : Bool) (bytes dest : Text) (t : TempFile) (fs : Files)
    → Distinct fs
    → IsFresh dest fs t
    → IsReplaced dest bytes fs (atomic_write works bytes dest t fs)
      ⊎ IsUnchanged fs (atomic_write works bytes dest t fs)
unfolding atomic_write
atomic_write-cases works bytes dest no_file fs d f = inr (untouched fs raises (λ e. cc))
atomic_write-cases works bytes dest (partial path part) fs d f =
    inr (record { failed = λ e. cc; same = λ k there. lookup-partial path part fs k f.0 there })
atomic_write-cases true bytes dest (written path) fs d f =
    inl (replaces-IsReplaced path bytes dest fs d f.0)
atomic_write-cases false bytes dest (written path) fs d f =
    inr (record { failed = λ e. cc; same = λ k there. lookup-removed path bytes fs k d f.0 })

pub after_open-cases :
    (edition bytes : Text) (o : Opened)
    → ((after_open edition bytes o ≡ goes_on bytes) × (o ≡ metadata edition))
      ⊎ ((e : Ended) × (after_open edition bytes o ≡ ends e) × (e ≢ exits exit_ok))
unfolding after_open
after_open-cases edition bytes invalid_database = inr (_, refl, code-ne 6 (λ e. ground arith))
after_open-cases edition bytes open_raises = inr (raises, refl, λ e. cc)
after_open-cases edition bytes (metadata t) = elim (Bool-cases (t == edition)) [
  | inl same ↦ inl (rw same refl, ap metadata (ground (arith, same, ==_iff t edition)))
  | inr other ↦ inr (_, rw other refl, code-ne 6 (λ e. ground arith))
]
