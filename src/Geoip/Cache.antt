-- ===== src/Geoip/Cache.antt =====
-- The cache answers as the databases do.
use adaptive_admission_contr.Base.{
  ◌≤◌, ◌<◌, ◌≡◌, refl, sym, ap, inl, inr, false, leb, Option, none, some, List, [], ◌∷◌, length,
  Text, ◌==◌, ==_iff, Distinct, map, arith, Bool-cases, Option-cases, subst, ap₂, length-insert-le,
  length-delete, lookup, delete, lookup-insert, insert-Distinct, lookup-delete, delete-Distinct,
}
use adaptive_admission_contr.Base.Float.{Float, IsOrdered}
use adaptive_admission_contr.Geoip.Evict.{evict_oldest-lem}
use adaptive_admission_contr.Geoip.{
  Found, value_error, CityRecord, country_in, Readers, Place, Cache, cache_max_size, read,
  has_reader, country_of, asn_of, both, make_room, store, fresh, store_read, look_up, locate,
}

module _ ⦃fl : Float⦄ where
  open fl use {F, lt}

  -- The cache holds no address twice, at most its bound, and only what the databases say.
  pub record IsCache (db : Readers) (c : Cache) : Type 0 where
    pub distinct : Distinct c
    pub bounded : length c ≤ cache_max_size
    pub faithful : (ip : Text) (p : Place) (t : F) → lookup ip c ≡ some (p, t) → read db ip ≡ some p

  make_room-IsCache :
      (o : IsOrdered fl) (db : Readers) (c : Cache)
      → IsCache db c
      → IsCache db (make_room c) × (length (make_room c) < cache_max_size)
  unfolding make_room
  make_room-IsCache o db c h = elim (Bool-cases (leb cache_max_size (length c))) [
    | inr room ↦ rw (room, make_room) (h, ground arith)
    | inl full ↦
        let (ip, p, t, gone, known, _) =
          evict_oldest-lem o c h.distinct (λ e. ground (arith, ap length e)) in
        let fewer = length-delete ip (p, t) c known in
        rw (full, make_room, gone)
          (
            record {
              distinct = delete-Distinct ip c h.distinct;
              bounded = omega (arith, h.bounded);
              faithful =
                  λ k q s e. h.faithful k q s (ground (arith, e, lookup-delete ip k c h.distinct));
            },
            omega (arith, h.bounded),
          )
  ]

  store-IsCache :
      (o : IsOrdered fl) (db : Readers) (ip : Text) (p : Place) (now : F) (c : Cache)
      → read db ip ≡ some p
      → IsCache db c
      → IsCache db (store ip p now c)
  unfolding store
  store-IsCache o db ip p now c said h =
      let (v, room) = make_room-IsCache o db c h in
      record {
        distinct = insert-Distinct ip (p, now) (make_room c) v.distinct;
        bounded = omega (arith, length-insert-le ip (p, now) (make_room c));
        faithful = λ k q s e. elim (Bool-cases (ip == k)) [
          | inl same ↦
              ground (arith, e, same, ==_iff ip k, said, lookup-insert ip k (p, now) (make_room c))
          | inr other ↦
              v.faithful k q s (ground (arith, e, other, lookup-insert ip k (p, now) (make_room c)))
        ];
      }

  read-unopened :
      (db : Readers) (ip : Text) → has_reader db ≡ false → read db ip ≡ some (none, none)
  unfolding has_reader read country_of asn_of both
  read-unopened db ip h = ground arith

  pub read_raises :
      (db : Readers) (get : Text → Found CityRecord) (ip : Text)
      → db.city ≡ some get
      → get ip ≡ value_error
      → read db ip ≡ none
  unfolding read country_of country_in both
  read_raises db get ip opened raises = ground (arith, opened, raises)

  fresh-known :
      (now : F) (e : Option (Place × F)) (p : Place)
      → fresh now e ≡ some p
      → (t : F) × (e ≡ some (p, t))
  unfolding fresh
  fresh-known now none p h = ground arith
  fresh-known now (some (q, t)) p h = (t, ground arith)

  -- What a call returns, and that it keeps the cache as it should be.
  pub record Answers (db : Readers) (ip : Text) (c : Cache) (r : Option (Place × Cache))
      : Type 0 where
    pub answer : elim r [ none ↦ none | some (p, c') ↦ some p ] ≡ read db ip
    pub kept : IsCache db (elim r [ none ↦ c | some (p, c') ↦ c' ])

  store_read-Answers :
      (o : IsOrdered fl) (db : Readers) (now : F) (ip : Text) (c : Cache) (r : Option Place)
      → r ≡ read db ip
      → IsCache db c
      → Answers db ip c (store_read ip now c r)
  unfolding store_read
  store_read-Answers o db now ip c none e h = record { answer = e; kept = h }
  store_read-Answers o db now ip c (some p) e h = record {
    answer = e;
    kept = store-IsCache o db ip p now c (sym e) h;
  }

  pub locate-Answers :
      (o : IsOrdered fl) (db : Readers) (now : F) (ip : Text) (c : Cache)
      → IsCache db c
      → Answers db ip c (locate db now ip c)
  unfolding locate look_up
  locate-Answers o db now ip c h = elim (Bool-cases (has_reader db)) [
    | inr no_reader ↦
        rw (no_reader, locate) (record { answer = sym (read-unopened db ip no_reader); kept = h })
    | inl reader ↦ elim (Option-cases (fresh now (lookup ip c))) [
      | inl stale ↦
          rw (reader, stale, locate, look_up) (store_read-Answers o db now ip c (read db ip) refl h)
      | inr (p, live) ↦
          let (t, known) = fresh-known now (lookup ip c) p live in
          rw (reader, live, locate, look_up)
            (record { answer = sym (h.faithful ip p t known); kept = h })
    ]
  ]

  -- A sequence of calls, each with the clock's reading: the answers, and the cache at the end.
  unfoldable pub run : Readers → List (F × Text) → Cache → List (Option Place) × Cache
  unfolding locate
  run db [] c = ([], c)
  run db ((now, ip) ∷ calls) c =
      let r = locate db now ip c in
      let (answers, c') = run db calls (elim r [ none ↦ c | some (p, c') ↦ c' ]) in
      (elim r [ none ↦ none | some (p, c') ↦ some p ] ∷ answers, c')

  run_from :
      (o : IsOrdered fl) (db : Readers) (calls : List (F × Text)) (c : Cache)
      → IsCache db c
      → ((run db calls c).0 ≡ map (λ x. read db x.1) calls) × IsCache db (run db calls c).1
  unfolding run
  run_from o db [] c h = (refl, h)
  run_from o db ((now, ip) ∷ calls) c h =
      let a = locate-Answers o db now ip c h in
      let (same, kept) = run_from o db calls _ a.kept in (ap₂ (◌∷◌) a.answer same, kept)

  -- Whatever addresses are looked up and whatever the clock reads, the cache cannot be told from
  -- its absence: each call gives what the databases say of its address, an exception where they
  -- raise one included. The cache never holds more than 10,000 entries, nor an address twice.
  pub run-read :
      (o : IsOrdered fl) (db : Readers) (calls : List (F × Text))
      → ((run db calls []).0 ≡ map (λ x. read db x.1) calls) × IsCache db (run db calls []).1
  unfolding lookup
  run-read o db calls =
      run_from o db calls []
        (record { distinct = tt; bounded = omega arith; faithful = λ ip p t e. cc })

  store-forgets :
      (o : IsOrdered fl) (ip : Text) (p : Place) (now : F) (c : Cache) (k : Text) (q : Place)
      (s : F)
      → Distinct c
      → lookup k c ≡ some (q, s)
      → lookup k (store ip p now c) ≡ none
      → (cache_max_size ≤ length c)
        × ((k' : Text) (q' : Place) (s' : F) → lookup k' c ≡ some (q', s') → lt s' s ≡ false)
  unfolding store make_room
  store-forgets o ip p now c k q s d known lost =
      elim (Bool-cases (leb cache_max_size (length c))) [
        | inr room ↦ absurd (ground (arith, room, known, lost, lookup-insert ip k (p, now) c))
        | inl full ↦
            let (i, r, t, gone, there, least) =
              evict_oldest-lem o c d (λ e. ground (arith, ap length e)) in
            let taken : i ≡ k = ground (
              arith,
              full,
              gone,
              known,
              lost,
              lookup-insert ip k (p, now) (delete i c),
              lookup-delete i k c d,
              ==_iff i k,
            ) in
            let time : t ≡ s = ground (arith, there, known, taken) in
            (
              ground (arith, full),
              λ k' q' s' h. subst (λ x. lt s' x ≡ false) time (least k' q' s' h),
            )
      ]

  -- A call makes the cache forget an address only when it is full, and then one that was read no
  -- later than every other address in it.
  pub locate-forgets :
      (o : IsOrdered fl) (db : Readers) (now : F) (ip : Text) (c : Cache) (p : Place) (c' : Cache)
      (k : Text) (q : Place) (s : F)
      → IsCache db c
      → locate db now ip c ≡ some (p, c')
      → lookup k c ≡ some (q, s)
      → lookup k c' ≡ none
      → (cache_max_size ≤ length c)
        × ((k' : Text) (q' : Place) (s' : F) → lookup k' c ≡ some (q', s') → lt s' s ≡ false)
  unfolding locate look_up store_read
  locate-forgets o db now ip c p c' k q s h e known lost = elim (Bool-cases (has_reader db)) [
    | inr no_reader ↦ absurd (ground (arith, no_reader, known, lost))
    | inl reader ↦ elim (Option-cases (fresh now (lookup ip c))) [
      | inr (_, live) ↦ absurd (ground (arith, reader, live, known, lost))
      | inl stale ↦ elim (Option-cases (read db ip)) [
        | inl raised ↦ absurd (ground (arith, reader, stale, raised, e))
        | inr (r, said) ↦
            let kept : store ip r now c ≡ c' = ground (arith, reader, stale, said, e) in
            store-forgets o ip r now c k q s h.distinct known (rw kept lost)
      ]
    ]
  ]
