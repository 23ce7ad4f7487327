-- ===== src/Balancer/State.antt =====
-- The well-formedness of a balancer, kept by every method in any interleaving: each method holds
-- the lock while it runs, so a run of the program is a sequence of their steps.
use adaptive_admission_contr.Base.{
  ℕ, ◌+◌, ◌-◌, ◌≡◌, refl, ap, sym, ◌∙◌, inl, inr, ◌≢◌, ◌↔◌, Bool, true, false, not, ◌&&◌, leb,
  arith, Option, none, some, Bool-cases, List, [], ◌∷◌, ◌++◌, Text, ◌==◌, Dict, lookup, insert,
  Distinct, keys, get_or, lookup-insert, insert-Distinct, keys-insert, lookup-delete,
  delete-Distinct, from_keys-Distinct, filter-Distinct, from_keys-ne-nil_of_ne, lookup-from_keys,
  keys-from_keys_same,
}
use adaptive_admission_contr.Base.Float.{Float}
use adaptive_admission_contr.Balancer.{
  Balancer, SplitUrl, init, select, release, give_back, mark_down, is_healthy, sweep_expired,
  recover, is_expired,
}
use adaptive_admission_contr.Balancer.Pool.{active_pool-IsPreferred}
use adaptive_admission_contr.Balancer.Select.{select-Reserves}

keys_nil {ℓ} : {V : Type ℓ} {d : Dict V} → keys d ≡ [] → d ≡ []
keys_nil {d = []} e = refl
keys_nil {d = x ∷ d} e = cc

append-ne-nil {ℓ} : {A : Type ℓ} (xs ys : List A) → xs ≢ [] → xs ++ ys ≢ []
append-ne-nil [] ys h = absurd (h refl)
append-ne-nil (x ∷ xs) ys h = λ e. cc

module _ ⦃fl : Float⦄ where
  open fl use {F, lt, minus}

  pub record IsValid (b : Balancer) : Type 0 where
    pub distinct : Distinct b.in_flight
    pub nonempty : b.in_flight ≢ []
    pub distinct_pins : Distinct b.sticky
    pub same_keys : keys b.in_flight ≡ keys b.healthy
    -- exactly the instances that are down have a time since when
    pub distinct_marks : Distinct b.marked_down_since
    pub marked_down :
        (v : Text) → (lookup v b.marked_down_since ≢ none) ↔ (lookup v b.healthy ≡ some false)

  -- The methods, as steps. A released or probed url need not be one that is configured.
  pub data Step (b : Balancer) : Balancer → Type 0 where
    selecting :
        (hint : Option ℕ) (checked_at stored_at : F) (ip : Option Text) {u : Text} {b' : Balancer}
        → select hint checked_at stored_at ip b ≡ some (u, b')
        → Step b b'
    releasing : (u : Text) (failed : Bool) (now : F) → Step b (release u failed now b)
    recovering : (u : Text) → Step b (recover u b)
    sweeping : (now : F) → Step b (sweep_expired now b)

  pub data Reach (b : Balancer) : Balancer → Type 0 where
    here : Reach b b
    next : {b' b'' : Balancer} → Reach b b' → Step b' b'' → Reach b b''

  -- A new count for a known instance.
  counted-IsValid :
      (b b' : Balancer) (u : Text) (n m : ℕ)
      → IsValid b
      → lookup u b.in_flight ≡ some m
      → b'.in_flight ≡ insert u n b.in_flight
      → b'.healthy ≡ b.healthy
      → b'.marked_down_since ≡ b.marked_down_since
      → Distinct b'.sticky
      → IsValid b'
  counted-IsValid b b' u n m v known counted health marks pins = record {
    distinct_pins = pins;
    distinct = rw counted (insert-Distinct u n b.in_flight v.distinct);
    nonempty =
        rw counted
          (λ e. v.nonempty (keys_nil (sym (keys-insert u n b.in_flight known) ∙ ap keys e)));
    same_keys = rw (counted, health, keys-insert u n b.in_flight known) v.same_keys;
    distinct_marks = rw marks v.distinct_marks;
    marked_down = λ w. rw (marks, health) (v.marked_down w);
  }

  mark_down-IsValid :
      (b : Balancer) (u : Text) (now : F)
      → IsValid b
      → is_healthy b u ≡ true
      → IsValid (mark_down u now b)
  unfolding mark_down is_healthy
  mark_down-IsValid b u now v up = record {
    distinct = v.distinct;
    nonempty = v.nonempty;
    distinct_pins = v.distinct_pins;
    same_keys = v.same_keys ∙ sym (keys-insert u false b.healthy {w = true} (ground arith));
    distinct_marks = insert-Distinct u now b.marked_down_since v.distinct_marks;
    marked_down = λ w.
        rw (lookup-insert u w now b.marked_down_since, lookup-insert u w false b.healthy)
          (elim (Bool-cases (u == w)) [
            | inl e ↦ rw e ((λ _. refl), λ _ missing. cc)
            | inr e ↦ rw e (v.marked_down w)
          ]);
  }

  recover-IsValid : (b : Balancer) (u : Text) → IsValid b → IsValid (recover u b)
  unfolding recover
  recover-IsValid b u v = elim (Bool-cases (get_or true (lookup u b.healthy))) [
    | inl up ↦ rw (up, recover) v
    | inr down ↦
        let known : lookup u b.healthy ≡ some false = ground arith in
        rw (down, recover)
          (record {
            distinct = v.distinct;
            nonempty = v.nonempty;
            distinct_pins = v.distinct_pins;
            same_keys = v.same_keys ∙ sym (keys-insert u true b.healthy known);
            distinct_marks = delete-Distinct u b.marked_down_since v.distinct_marks;
            marked_down = λ w.
                rw
                  (
                    lookup-delete u w b.marked_down_since v.distinct_marks,
                    lookup-insert u w true b.healthy,
                  )
                  (elim (Bool-cases (u == w)) [
                    | inl e ↦ rw e ((λ some_none. absurd (some_none refl)), λ wrong. cc)
                    | inr e ↦ rw e (v.marked_down w)
                  ]);
          })
  ]

  give_back-IsValid : (b : Balancer) (u : Text) → IsValid b → IsValid (give_back u b)
  unfolding give_back
  give_back-IsValid b u v = elim (Bool-cases (leb (get_or 0 (lookup u b.in_flight)) 0)) [
    | inl idle ↦ rw (idle, give_back) v
    | inr busy ↦
        let n = get_or 0 (lookup u b.in_flight) in
        rw (busy, give_back)
          (counted-IsValid b _ u (n - 1) n v (ground arith) refl refl refl v.distinct_pins)
  ]

  release-IsValid :
      (b : Balancer) (u : Text) (failed : Bool) (now : F)
      → IsValid b
      → IsValid (release u failed now b)
  unfolding release
  release-IsValid b u failed now v = elim (Bool-cases (failed && is_healthy (give_back u b) u)) [
    | inl down ↦
        rw (down, release)
          (mark_down-IsValid (give_back u b) u now (give_back-IsValid b u v) (ground arith))
    | inr stays ↦ rw (stays, release) (give_back-IsValid b u v)
  ]

  -- Every method keeps the balancer well formed.
  pub Step-IsValid : {b b' : Balancer} → Step b b' → IsValid b → IsValid b'
  Step-IsValid {b} (selecting hint c t ip {u} {b'} e) v =
      let r = select-Reserves hint c t ip b {u = u} {b' = b'} v.distinct e in
      let found = (active_pool-IsPreferred b u r.load r.offered).0 in
      counted-IsValid b b' u (r.load + 1) r.load v found r.counted r.same_health r.same_marks
        (r.kept_distinct v.distinct_pins)
  Step-IsValid {b} (releasing u failed now) v = release-IsValid b u failed now v
  Step-IsValid {b} (recovering u) v = recover-IsValid b u v
  Step-IsValid {b} (sweeping now) v =
      unfold sweep_expired in
      record {
        distinct = v.distinct;
        nonempty = v.nonempty;
        distinct_pins = filter-Distinct (λ e. not (is_expired now b e)) b.sticky v.distinct_pins;
        same_keys = v.same_keys;
        distinct_marks = v.distinct_marks;
        marked_down = v.marked_down;
      }

  -- So it stays well formed in every run, however the methods of several tasks interleave.
  Reach-IsValid : {b b' : Balancer} → IsValid b → Reach b b' → IsValid b'
  Reach-IsValid v here = v
  Reach-IsValid v (next r st) = Step-IsValid st (Reach-IsValid v r)

  init-IsValid :
      (urlsplit : Text → SplitUrl) (urls backups : List Text) (enabled : Bool) (ttl : F)
      → urls ≢ []
      → IsValid (init urlsplit urls backups enabled ttl)
  unfolding init lookup
  init-IsValid urlsplit urls backups enabled ttl h = record {
    distinct = from_keys-Distinct (urls ++ backups) 0 [] tt;
    nonempty = from_keys-ne-nil_of_ne (urls ++ backups) 0 (append-ne-nil urls backups h);
    distinct_pins = tt;
    same_keys = keys-from_keys_same (urls ++ backups) 0 true [] [] refl;
    distinct_marks = tt;
    marked_down = λ v. (
      (λ marked. absurd (marked refl)),
      λ down. elim (lookup-from_keys (urls ++ backups) v true false [] down) [
        | inl e ↦ cc
        | inr e ↦ cc
      ],
    );
  }

  -- From a configuration with at least one upstream, every state that the program reaches is well
  -- formed, however the methods of several tasks interleave: the two dictionaries have the same
  -- distinct keys, some instance exists, and the marked instances are those that are down.
  pub Reach-init-IsValid :
      (urlsplit : Text → SplitUrl) (urls backups : List Text) (enabled : Bool) (ttl : F)
      {b : Balancer}
      → urls ≢ []
      → Reach (init urlsplit urls backups enabled ttl) b
      → IsValid b
  Reach-init-IsValid urlsplit urls backups enabled ttl h r =
      Reach-IsValid (init-IsValid urlsplit urls backups enabled ttl h) r
