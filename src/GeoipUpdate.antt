-- ===== src/GeoipUpdate.antt =====
-- scripts/update_geoip_db.py, over the files as a dictionary from paths to contents. The download,
-- the archive and the reader of databases are parameters: what they yield is an argument.
mod Steps
mod Safe
mod Tests
use adaptive_admission_contr.Base.{
  ℕ, Bool, true, false, ◌||◌, if◌then◌else◌, eqb, Option, none, some, List, [], ◌∷◌, ◌++◌, filter,
  Text, ◌==◌, codes, Dict, lookup, insert, delete,
}

abbrev pub Files : Type 0
Files = Dict Text

-- `_download`: the bytes, an HTTPStatusError, another HTTPError, or another exception.
pub data Downloaded : Type 0 where
  content : (tar_bytes : Text) → Downloaded
  http_status_error : (status_code : ℕ) → Downloaded
  http_error : Downloaded
  download_raises : Downloaded

-- What `tarfile` makes of the bytes: a TarError or a ValueError, another exception, or the members
-- by name, each with its bytes unless it is no regular file.
pub data Archive : Type 0 where
  tar_error : Archive
  archive_raises : Archive
  members : List (Text × Option Text) → Archive

-- What `maxminddb.open_database` and `metadata` make of a file: an InvalidDatabaseError or a
-- ValueError, another exception, or the type of the database.
pub data Opened : Type 0 where
  invalid_database : Opened
  open_raises : Opened
  metadata : (database_type : Text) → Opened

-- `NamedTemporaryFile` and the write to it: an OSError before there is a file, one after which a
-- part of the content stays in it, or the whole.
pub data TempFile : Type 0 where
  no_file : TempFile
  partial : (path : Text) (part : Text) → TempFile
  written : (path : Text) → TempFile

-- What the surroundings do in one run.
pub record World : Type 0 where
  pub account_id : Option Text
  pub license_key : Option Text
  pub download : Downloaded
  pub untar : Text → Archive
  pub open_database : Text → Opened
  pub probe : TempFile
  pub temporary : TempFile
  pub replace_works : Bool

abbrev pub exit_ok : ℕ
exit_ok = 0

abbrev pub exit_missing_credentials : ℕ
exit_missing_credentials = 2

abbrev pub exit_auth_failed : ℕ
exit_auth_failed = 3

abbrev pub exit_download_failed : ℕ
exit_download_failed = 4

abbrev pub exit_bad_archive : ℕ
exit_bad_archive = 5

abbrev pub exit_invalid_database : ℕ
exit_invalid_database = 6

-- A run ends with an exit code, or with an exception.
pub data Ended : Type 0 where
  exits : (code : ℕ) → Ended
  raises : Ended

-- A step that the program goes on from, or that ends it.
pub data Stage (A : Type 0) : Type 0 where
  goes_on : A → Stage A
  ends : Ended → Stage A

-- `not value`, of an environment variable.
pub is_missing : Option Text → Bool
is_missing none = true
is_missing (some []) = true
is_missing (some (c ∷ s)) = false

pub after_download : Downloaded → Stage Text
after_download (content tar_bytes) = goes_on tar_bytes
after_download (http_status_error status_code) =
    if eqb status_code 401 || eqb status_code 403
    then ends (exits exit_auth_failed)
    else ends (exits exit_download_failed)
after_download http_error = ends (exits exit_download_failed)
after_download download_raises = ends raises

-- `text.endswith(suffix)`
pub ends_with : Text → Text → Bool
ends_with suffix [] = [] == suffix
ends_with suffix (c ∷ s) = (c ∷ s) == suffix || ends_with suffix s

sole : List (Text × Option Text) → Option Text
sole [] = none
sole ((name, bytes) ∷ []) = bytes
sole (m ∷ n ∷ rest) = none

-- `_extract_mmdb`, where `none` is the ValueError.
pub extract_mmdb : List (Text × Option Text) → Option Text
unfolding sole ends_with
extract_mmdb ms = sole (filter (λ m. ends_with (codes ".mmdb") m.0) ms)

after_extract : Option Text → Stage Text
after_extract none = ends (exits exit_bad_archive)
after_extract (some bytes) = goes_on bytes

pub after_untar : Archive → Stage Text
unfolding after_extract extract_mmdb
after_untar tar_error = ends (exits exit_bad_archive)
after_untar archive_raises = ends raises
after_untar (members ms) = after_extract (extract_mmdb ms)

-- `_validate`, once the probe file is written; the bytes go on.
pub after_open : (edition : Text) → Text → Opened → Stage Text
after_open edition bytes invalid_database = ends (exits exit_invalid_database)
after_open edition bytes open_raises = ends raises
after_open edition bytes (metadata database_type) =
    if database_type == edition then goes_on bytes else ends (exits exit_invalid_database)

-- The `finally` clause of `_validate` removes the probe file.
pub validate : (Text → Opened) → (edition : Text) → Text → TempFile → Files → Stage Text × Files
unfolding after_open insert delete
validate open_database edition bytes no_file fs = (ends raises, fs)
validate open_database edition bytes (partial path part) fs = (ends raises, insert path part fs)
validate open_database edition bytes (written path) fs =
    (after_open edition bytes (open_database bytes), delete path (insert path bytes fs))

-- `os.replace` of a file that is there.
replace : Text → Text → Text → Files → Files
unfolding insert delete
replace bytes source dest fs = insert dest bytes (delete source fs)

-- `_atomic_write`
pub atomic_write : (works : Bool) → Text → (dest : Text) → TempFile → Files → Ended × Files
unfolding replace insert delete
atomic_write works bytes dest no_file fs = (raises, fs)
atomic_write works bytes dest (partial path part) fs = (raises, insert path part fs)
atomic_write works bytes dest (written path) fs =
    if works
    then (exits exit_ok, replace bytes path dest (insert path bytes fs))
    else (raises, delete path (insert path bytes fs))

write_validated : World → (dest : Text) → Stage Text × Files → Ended × Files
unfolding atomic_write
write_validated w dest (ends e, fs) = (e, fs)
write_validated w dest (goes_on bytes, fs) = atomic_write w.replace_works bytes dest w.temporary fs

install : World → (edition dest : Text) → Stage Text → Files → Ended × Files
unfolding write_validated validate
install w edition dest (ends e) fs = (e, fs)
install w edition dest (goes_on bytes) fs =
    write_validated w dest (validate w.open_database edition bytes w.probe fs)

extract : World → (edition dest : Text) → Stage Text → Files → Ended × Files
unfolding install after_untar
extract w edition dest (ends e) fs = (e, fs)
extract w edition dest (goes_on tar_bytes) fs =
    install w edition dest (after_untar (w.untar tar_bytes)) fs

-- `main`, once the arguments are parsed.
pub main : World → (edition dest : Text) → Files → Ended × Files
unfolding extract after_download is_missing
main w edition dest fs =
    if is_missing w.account_id || is_missing w.license_key
    then (exits exit_missing_credentials, fs)
    else extract w edition dest (after_download w.download) fs
