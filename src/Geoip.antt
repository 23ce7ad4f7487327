-- ===== src/Geoip.antt =====
-- app/geoip.py: `GeoIPLookup`. The two databases are parameters: a reader of `maxminddb` finds
-- nothing, finds a record, or raises ValueError for a text that is no address it can look up.
pub mod Cache
mod Evict
mod Tests
use adaptive_admission_contr.Base.{
  ℕ, Bool, true, false, if◌then◌else◌, leb, Option, none, some, List, [], ◌∷◌, length, Text, Dict,
  lookup, insert, delete, decimal,
}
use adaptive_admission_contr.Base.Float.{Float}

abbrev pub cache_ttl_seconds : ℕ
cache_ttl_seconds = 300

abbrev pub cache_max_size : ℕ
cache_max_size = 10_000

-- `reader.get(ip)`: an exception, a value that is no dictionary (`None` for one), or a record.
pub data Found (A : Type 0) : Type 0 where
  value_error : Found A
  not_dict : Found A
  dict : A → Found A

-- The parts of a record that are read: `country`, and in it `iso_code`.
pub record CityRecord : Type 0 where
  pub country : Option (Option Text)

pub record AsnRecord : Type 0 where
  pub autonomous_system_number : Option ℕ

-- The databases, each of which may be missing.
pub record Readers : Type 0 where
  pub city : Option (Text → Found CityRecord)
  pub asn : Option (Text → Found AsnRecord)

-- `(country, asn)`
abbrev pub Place : Type 0
Place = Option Text × Option Text

pub iso_code : CityRecord → Option Text
iso_code r = elim r.country [ none ↦ none | some code ↦ code ]

country_in : Found CityRecord → Option (Option Text)
unfolding iso_code
country_in value_error = none
country_in not_dict = some none
country_in (dict r) = some (iso_code r)

-- The outer `none` is the ValueError.
pub country_of : Option (Text → Found CityRecord) → Text → Option (Option Text)
unfolding country_in
country_of none ip = some none
country_of (some get) ip = country_in (get ip)

asn_text : Option ℕ → Option Text
unfolding decimal
asn_text none = none
asn_text (some n) = some (decimal n)

asn_in : Found AsnRecord → Option (Option Text)
unfolding asn_text
asn_in value_error = none
asn_in not_dict = some none
asn_in (dict r) = some (asn_text r.autonomous_system_number)

pub asn_of : Option (Text → Found AsnRecord) → Text → Option (Option Text)
unfolding asn_in
asn_of none ip = some none
asn_of (some get) ip = asn_in (get ip)

both : Option (Option Text) → Option (Option Text) → Option Place
both none asn = none
both (some country) none = none
both (some country) (some asn) = some (country, asn)

-- What the two databases say of an address.
pub read : Readers → Text → Option Place
unfolding country_of asn_of both
read db ip = both (country_of db.city ip) (asn_of db.asn ip)

pub has_reader : Readers → Bool
has_reader db = elim db.city [
  | some get ↦ true
  | none ↦ elim db.asn [ some get ↦ true | none ↦ false ]
]

module _ ⦃fl : Float⦄ where
  open fl use {F, lt, minus, of_ℕ}

  -- The cache: the answer for an address, and when it was read.
  abbrev pub Cache : Type 0
  Cache = Dict (Place × F)

  -- `min(self._cache, key=…)`: the first of the oldest entries, with its time.
  pub older : Text × F → Text × F → Text × F
  older x y = if lt y.1 x.1 then y else x

  pub oldest_from : Text × F → Cache → Text × F
  unfolding older
  oldest_from x [] = x
  oldest_from x ((ip, (p, t)) ∷ c) = oldest_from (older x (ip, t)) c

  pub evict_oldest : Cache → Cache
  unfolding oldest_from delete
  evict_oldest [] = []
  evict_oldest ((ip, (p, t)) ∷ c) = delete (oldest_from (ip, t) c).0 ((ip, (p, t)) ∷ c)

  pub make_room : Cache → Cache
  unfolding evict_oldest
  make_room c = if leb cache_max_size (length c) then evict_oldest c else c

  pub store : Text → Place → (now : F) → Cache → Cache
  unfolding make_room insert
  store ip p now c = insert ip (p, now) (make_room c)

  -- The cached answer, unless it is too old.
  fresh : (now : F) → Option (Place × F) → Option Place
  fresh now none = none
  fresh now (some (p, t)) = if lt (minus now t) (of_ℕ cache_ttl_seconds) then some p else none

  store_read : Text → (now : F) → Cache → Option Place → Option (Place × Cache)
  unfolding store
  store_read ip now c none = none
  store_read ip now c (some p) = some (p, store ip p now c)

  look_up : Readers → (now : F) → Text → Cache → Option Place → Option (Place × Cache)
  unfolding read store_read
  look_up db now ip c (some p) = some (p, c)
  look_up db now ip c none = store_read ip now c (read db ip)

  -- `lookup`, at the clock's reading `now`; `none` is the ValueError of a reader, after which the
  -- cache is as it was.
  unfoldable pub locate : Readers → (now : F) → Text → Cache → Option (Place × Cache)
  unfolding has_reader look_up fresh lookup
  locate db now ip c =
      if has_reader db
      then look_up db now ip c (fresh now (lookup ip c))
      else some ((none, none), c)
