-- ===== src/Monitor/Extras.antt =====
-- What the formatter keeps of a record.
use adaptive_admission_contr.Base.{
  ◌≡◌, refl, ap, ◌∙◌, inl, inr, true, false, none, some, List, [], ◌∷◌, ◌++◌, Text, ◌==◌, ==_iff,
  codes, Dict, Distinct, lookup, insert, lookup-insert, in_list, keys, arith, Bool-cases,
}
use adaptive_admission_contr.Base.Float.{Float}
use adaptive_admission_contr.Monitor.{
  Json, text, when_some, LogRecord, add_extras, format, reserved, any_listed,
}

module _ ⦃fl : Float⦄ where
  add_extras-append :
      (names : List Text) (d e payload : Dict Json)
      → add_extras names (d ++ e) payload ≡ add_extras names e (add_extras names d payload)
  unfolding add_extras
  add_extras-append names [] e payload = refl
  add_extras-append names ((k, v) ∷ d) e payload = add_extras-append names d e _

  -- Listed attributes are left out.
  add_extras-listed :
      (names : List Text) (d payload : Dict Json)
      → ((k : Text) → in_list k (keys d) ≡ true → in_list k names ≡ true)
      → add_extras names d payload ≡ payload
  unfolding add_extras in_list
  add_extras-listed names [] payload h = refl
  add_extras-listed names ((k, v) ∷ d) payload h =
      let here = h k (ground (arith, ==_iff k k)) in
      rw (here, add_extras) (add_extras-listed names d payload (λ j i. h j (ground (arith, i))))

  -- The others are there, the last of each name.
  lookup-add_extras :
      (names : List Text) (d payload : Dict Json) (k : Text)
      → any_listed names d ≡ false
      → Distinct d
      → lookup k (add_extras names d payload)
        ≡ elim (lookup k d) [ none ↦ lookup k payload | some v ↦ some v ]
  unfolding add_extras any_listed lookup
  lookup-add_extras names [] payload k h distinct = refl
  lookup-add_extras names ((j, v) ∷ d) payload k h distinct =
      let fresh : in_list j names ≡ false = ground (arith, h) in
      let rest = lookup-add_extras names d (insert j v payload) k (ground (arith, h)) distinct.1 in
      rw (fresh, add_extras)
        (elim (Bool-cases (j == k)) [
          | inl same ↦
              ground (arith, rest, same, ==_iff j k, distinct.0, lookup-insert j k v payload)
          | inr other ↦ ground (arith, rest, other, lookup-insert j k v payload)
        ])

  abbrev pub header : (time logger message : Text) → Dict Json
  header time logger message =
      (codes "timestamp", text time)
      ∷ (codes "level", text (codes "INFO"))
      ∷ (codes "logger", text logger)
      ∷ (codes "event", text message)
      ∷ []

  reserved-keys :
      (standard : Dict Json) (k : Text)
      → in_list k (keys standard) ≡ true
      → in_list k (reserved standard) ≡ true
  unfolding in_list
  reserved-keys standard k h = ground (arith, h)

  -- The record of a line of level INFO.
  abbrev pub logged : (standard extra : Dict Json) → (time logger message : Text) → LogRecord
  logged standard extra time logger message = record {
    time = time;
    level = codes "INFO";
    logger = logger;
    message = message;
    attributes = standard ++ extra;
    exception = none;
  }

  pub lookup-format :
      (standard extra : Dict Json) (time logger message k : Text)
      → any_listed (reserved standard) extra ≡ false
      → Distinct extra
      → lookup k (format (reserved standard) (logged standard extra time logger message))
        ≡ elim (lookup k extra) [ none ↦ lookup k (header time logger message) | some v ↦ some v ]
  unfolding format when_some
  lookup-format standard extra time logger message k free distinct =
      let names = reserved standard in
      let top = header time logger message in
      ap (λ d. lookup k d)
        (add_extras-append names standard extra top
          ∙ ap (add_extras names extra)
              (add_extras-listed names standard top (reserved-keys standard)))
      ∙ lookup-add_extras names extra top k free distinct
