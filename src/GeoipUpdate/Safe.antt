-- ===== src/GeoipUpdate/Safe.antt =====
-- The destination changes only to a database that was validated.
use adaptive_admission_contr.Base.{
  ◌≡◌, ◌≢◌, refl, sym, ◌∙◌, ◌⊎◌, inl, inr, ◌||◌, eqb, Option, some, List, Text, lookup, insert,
  delete, Distinct, insert-Distinct, delete-Distinct, arith, Bool-cases, Option-cases,
}
use adaptive_admission_contr.GeoipUpdate.{
  Files, Downloaded, content, http_status_error, http_error, download_raises, Archive, tar_error,
  archive_raises, members, metadata, TempFile, no_file, partial, written, World, exit_ok, Ended,
  exits, raises, goes_on, ends, is_missing, after_download, extract_mmdb, after_extract,
  after_untar, validate, write_validated, install, extract, main,
}
use adaptive_admission_contr.GeoipUpdate.Steps.{
  IsFresh, IsUnchanged, code-ne, untouched, lookup-removed, lookup-partial, IsReplaced,
  atomic_write-cases, after_open-cases,
}

-- The run ends with success: the destination holds the one `.mmdb` file of the archive, a database
-- of the edition asked for, and every other path is as it was.
pub record IsInstalled (w : World) (edition dest : Text) (fs : Files) (r : Ended × Files)
    : Type 0 where
  pub succeeded : r.0 ≡ exits exit_ok
  pub tar_bytes : Text
  pub downloaded : w.download ≡ content tar_bytes
  pub archive : List (Text × Option Text)
  pub unpacked : w.untar tar_bytes ≡ members archive
  pub bytes : Text
  pub extracted : extract_mmdb archive ≡ some bytes
  pub validated : w.open_database bytes ≡ metadata edition
  pub at_dest : lookup dest r.1 ≡ some bytes
  pub elsewhere : (k : Text) → k ≢ dest → lookup k r.1 ≡ lookup k fs

-- From the validation on.
Outcome : World → (edition dest bytes : Text) → Files → Ended × Files → Type 0
Outcome w edition dest bytes fs r =
    ((w.open_database bytes ≡ metadata edition) × IsReplaced dest bytes fs r) ⊎ IsUnchanged fs r

-- The two dictionaries hold the same files.
abbrev Same : Files → Files → Type 0
Same fs fs' = (k : Text) → lookup k fs' ≡ lookup k fs

Same-IsFresh :
    (dest : Text) (fs fs' : Files) (t : TempFile)
    → Same fs fs'
    → IsFresh dest fs t
    → IsFresh dest fs' t
Same-IsFresh dest fs fs' no_file same f = tt
Same-IsFresh dest fs fs' (partial path part) same f = (same path ∙ f.0, f.1)
Same-IsFresh dest fs fs' (written path) same f = (same path ∙ f.0, f.1)

Same-IsUnchanged :
    (fs fs' : Files) (r : Ended × Files) → Same fs fs' → IsUnchanged fs' r → IsUnchanged fs r
Same-IsUnchanged fs fs' r same u = record {
  failed = u.failed;
  same = λ k there. u.same k (λ gone. there (sym (same k) ∙ gone)) ∙ same k;
}

Same-IsReplaced :
    (dest bytes : Text) (fs fs' : Files) (r : Ended × Files)
    → Same fs fs'
    → IsReplaced dest bytes fs' r
    → IsReplaced dest bytes fs r
Same-IsReplaced dest bytes fs fs' r same v = record {
  succeeded = v.succeeded;
  at_dest = v.at_dest;
  elsewhere = λ k other. v.elsewhere k other ∙ same k;
}

probed-Outcome :
    (w : World) (edition dest bytes : Text) (fs : Files) (t : TempFile)
    → Distinct fs
    → IsFresh dest fs t
    → IsFresh dest fs w.temporary
    → Outcome w edition dest bytes fs
        (write_validated w dest (validate w.open_database edition bytes t fs))
unfolding validate write_validated Outcome
probed-Outcome w edition dest bytes fs no_file d f g = inr (untouched fs raises (λ e. cc))
probed-Outcome w edition dest bytes fs (partial path part) d f g =
    inr (record { failed = λ e. cc; same = λ k there. lookup-partial path part fs k f.0 there })
probed-Outcome w edition dest bytes fs (written path) d f g =
    let fs' = delete path (insert path bytes fs) in
    let same : Same fs fs' = λ k. lookup-removed path bytes fs k d f.0 in
    elim (after_open-cases edition bytes (w.open_database bytes)) [
      | inr (e, stopped, bad) ↦
          rw (validate, stopped, write_validated)
            (inr (Same-IsUnchanged fs fs' (e, fs') same (untouched fs' e bad)))
      | inl (went_on, valid) ↦
          rw (validate, went_on, write_validated)
            (elim (atomic_write-cases w.replace_works bytes dest w.temporary fs'
              (delete-Distinct path (insert path bytes fs) (insert-Distinct path bytes fs d))
              (Same-IsFresh dest fs fs' w.temporary same g)) [
                | inl done ↦ inl (valid, Same-IsReplaced dest bytes fs fs' _ same done)
                | inr kept ↦ inr (Same-IsUnchanged fs fs' _ same kept)
              ])
    ]

-- A stage before the files are touched: it goes on for a reason, or the run ends in failure.
after_download-cases :
    (x : Downloaded)
    → ((tar_bytes : Text) × (x ≡ content tar_bytes) × (after_download x ≡ goes_on tar_bytes))
      ⊎ ((e : Ended) × (after_download x ≡ ends e) × (e ≢ exits exit_ok))
unfolding after_download
after_download-cases (content tar_bytes) = inl (tar_bytes, refl, refl)
after_download-cases (http_status_error s) = elim (Bool-cases (eqb s 401 || eqb s 403)) [
  | inl refused ↦ inr (_, rw refused refl, code-ne 3 (λ e. ground arith))
  | inr other ↦ inr (_, rw other refl, code-ne 4 (λ e. ground arith))
]
after_download-cases http_error = inr (_, refl, code-ne 4 (λ e. ground arith))
after_download-cases download_raises = inr (raises, refl, λ e. cc)

after_untar-cases :
    (x : Archive)
    → ((ms : List (Text × Option Text)) × (bytes : Text) × (x ≡ members ms)
        × (extract_mmdb ms ≡ some bytes)
        × (after_untar x ≡ goes_on bytes))
      ⊎ ((e : Ended) × (after_untar x ≡ ends e) × (e ≢ exits exit_ok))
unfolding after_untar after_extract
after_untar-cases tar_error = inr (_, refl, code-ne 5 (λ e. ground arith))
after_untar-cases archive_raises = inr (raises, refl, λ e. cc)
after_untar-cases (members ms) = elim (Option-cases (extract_mmdb ms)) [
  | inl bad ↦ inr (_, rw bad refl, code-ne 5 (λ e. ground arith))
  | inr (bytes, good) ↦ inl (ms, bytes, refl, good, rw good refl)
]

-- Whatever the download, the archive, the reader of databases and the disk do, a run either ends
-- with success, and then the destination holds the one `.mmdb` file of the downloaded archive, which
-- was opened and found to be of the edition asked for, and no other path has changed, temporary
-- files included; or it ends with another exit code or an exception, and then every file that was
-- there before, the destination among them, is as it was. The names of the temporary files are new.
pub main-IsSafe :
    (w : World) (edition dest : Text) (fs : Files)
    → Distinct fs
    → IsFresh dest fs w.probe
    → IsFresh dest fs w.temporary
    → IsInstalled w edition dest fs (main w edition dest fs)
      ⊎ IsUnchanged fs (main w edition dest fs)
unfolding main extract install Outcome
main-IsSafe w edition dest fs d f g =
    elim (Bool-cases (is_missing w.account_id || is_missing w.license_key)) [
      | inl missing ↦ rw (missing, main) (inr (untouched fs _ (code-ne 2 (λ e. ground arith))))
      | inr given ↦ elim (after_download-cases w.download) [
        | inr (e, stopped, bad) ↦ rw (given, main, stopped, extract) (inr (untouched fs e bad))
        | inl (tar_bytes, came, went_on) ↦ elim (after_untar-cases (w.untar tar_bytes)) [
          | inr (e, stopped, bad) ↦
              rw (given, main, went_on, extract, stopped, install) (inr (untouched fs e bad))
          | inl (ms, bytes, unpacked, extracted, next) ↦
              rw (given, main, went_on, extract, next, install)
                (elim (probed-Outcome w edition dest bytes fs w.probe d f g) [
                  | inr kept ↦ inr kept
                  | inl (valid, done) ↦ inl (record {
                    succeeded = done.succeeded;
                    tar_bytes = tar_bytes;
                    downloaded = came;
                    archive = ms;
                    unpacked = unpacked;
                    bytes = bytes;
                    extracted = extracted;
                    validated = valid;
                    at_dest = done.at_dest;
                    elsewhere = done.elsewhere;
                  })
                ])
        ]
      ]
    ]
