-- ===== src/Geoip/Tests.antt =====
-- A city database that knows two addresses, and no other database.
use adaptive_admission_contr.Base.{
  ℕ, ◌≡◌, refl, if◌then◌else◌, none, some, List, [], ◌∷◌, Text, ◌==◌, codes, map, lookup, insert,
  delete,
}
use adaptive_admission_contr.Base.Float.{Float, fixed_point, fixed_point-IsOrdered}
use adaptive_admission_contr.Geoip.{
  Readers, Found, value_error, not_dict, dict, CityRecord, read, locate, evict_oldest,
}
use adaptive_admission_contr.Geoip.Cache.{IsCache, run, run-read}

instance abbrev clock : Float
clock = fixed_point

abbrev city : Text → Found CityRecord
city ip =
    if ip == codes "1.1.1.1"
    then dict (record { country = some (some (codes "PT")) })
    else if ip == codes "2.2.2.2"
    then not_dict
    else value_error

abbrev readers : Readers
readers = record { city = some city; asn = none }

abbrev calls : List (ℕ × Text)
calls =
    (1000, codes "1.1.1.1")
    ∷ (2000, codes "2.2.2.2")
    ∷ (3000, codes "1.1.1.1")
    ∷ (4000, codes "what")
    ∷ []

answers :
    (run readers calls []).0
    ≡ some (some (codes "PT"), none)
      ∷ some (none, none)
      ∷ some (some (codes "PT"), none)
      ∷ none
      ∷ []
unfolding run locate lookup insert delete ◌==◌ read
answers = refl

evicts_the_oldest :
    evict_oldest ((codes "a", ((none, none), 5)) ∷ (codes "b", ((none, none), 3)) ∷ [])
    ≡ (codes "a", ((none, none), 5)) ∷ []
unfolding evict_oldest delete ◌==◌
evicts_the_oldest = refl

run-read_example :
    ((run readers calls []).0 ≡ map (λ x. read readers x.1) calls)
    × IsCache readers (run readers calls []).1
run-read_example = run-read fixed_point-IsOrdered readers calls
