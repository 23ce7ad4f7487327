-- ===== src/Capacity/Slots.antt =====
-- The slots of a controller: no more are taken than the limit allows, and no free slot is
-- overlooked. Every request costs 1 (app/registry.py, `estimate_cost`).
use adaptive_admission_contr.Base.{
  ℕ, zero, suc, ◌+◌, ◌-◌, ◌≤◌, ◌<◌, ◌≡◌, refl, sym, ap, subst, ◌⊎◌, inl, inr, ltb, leb, arith,
  Bool-cases, List, [], ◌∷◌, ◌++◌, length, length-append, All,
}
use adaptive_admission_contr.Capacity.{
  Gate, fits, acquire, recheck, resume, wake, notify, notify_all, give_slot, set_limit,
}

abbrev pub Units : List ℕ → Type 0
Units = All (λ c. c ≡ 1)

Units-append : (xs ys : List ℕ) → Units xs → Units ys → Units (xs ++ ys)
Units-append [] ys hx hy = hy
Units-append (x ∷ xs) ys hx hy = (hx.0, Units-append xs ys hx.1 hy)

-- Every free slot is spoken for by a woken task, or nobody sleeps.
pub record IsAwake (g : Gate) : Type 0 where
  pub units_asleep : Units g.asleep
  pub units_woken : Units g.woken
  pub spoken_for : (g.asleep ≡ []) ⊎ (g.limit ≤ g.in_flight + length g.woken)

acquire-IsAwake : (g : Gate) → IsAwake g → IsAwake (acquire 1 g)
unfolding acquire fits
acquire-IsAwake g a = elim (Bool-cases (leb (g.in_flight + 1) g.limit)) [
  | inl free ↦
      rw (free, acquire)
        (record {
          units_asleep = a.units_asleep;
          units_woken = a.units_woken;
          spoken_for = ground arith;
        })
  | inr full ↦
      rw (full, acquire)
        (record {
          units_asleep = Units-append g.asleep (1 ∷ []) a.units_asleep (refl, tt);
          units_woken = a.units_woken;
          spoken_for = inr (ground arith);
        })
]

recheck-IsAwake : (ws : List ℕ) (g : Gate) → ws ≡ g.woken → IsAwake g → IsAwake (recheck ws g)
unfolding recheck fits
recheck-IsAwake [] g e a = a
recheck-IsAwake (c ∷ rest) g e a =
    let units : Units (c ∷ rest) = subst Units (sym e) a.units_woken in
    let count : suc (length rest) ≡ length g.woken = ap length e in
    elim (Bool-cases (leb (g.in_flight + c) g.limit)) [
      | inl free ↦
          rw (free, recheck)
            (record {
              units_asleep = a.units_asleep;
              units_woken = units.1;
              spoken_for = ground (arith, units.0, count);
            })
      | inr full ↦
          rw (full, recheck)
            (record {
              units_asleep = Units-append g.asleep (c ∷ []) a.units_asleep (units.0, tt);
              units_woken = units.1;
              spoken_for = inr (ground (arith, units.0));
            })
    ]

resume-IsAwake : (g : Gate) → IsAwake g → IsAwake (resume g)
unfolding resume
resume-IsAwake g a = recheck-IsAwake g.woken g refl a

wake_one-IsAwake :
    (l : List ℕ) (g : Gate)
    → Units l
    → Units g.woken
    → (l ≡ []) ⊎ (g.limit ≤ g.in_flight + 1 + length g.woken)
    → IsAwake (wake 1 l g)
unfolding wake
wake_one-IsAwake [] g u w s = record { units_asleep = tt; units_woken = w; spoken_for = inl refl }
wake_one-IsAwake (c ∷ l) g u w s = record {
  units_asleep = u.1;
  units_woken = Units-append g.woken (c ∷ []) w (u.0, tt);
  spoken_for = elim s [
    | inl nobody ↦ cc
    | inr spoken ↦ inr (omega (arith, length-append g.woken (c ∷ [])))
  ];
}

give_slot-IsAwake : (g : Gate) → 0 < g.in_flight → IsAwake g → IsAwake (give_slot 1 g)
unfolding give_slot notify
give_slot-IsAwake g held a =
    wake_one-IsAwake g.asleep (record g { in_flight = g.in_flight - 1 }) a.units_asleep
      a.units_woken (ground arith)

pub set_limit-IsAwake : (limit : ℕ) (g : Gate) → IsAwake g → IsAwake (set_limit limit g)
unfolding set_limit notify_all
set_limit-IsAwake limit g a = elim (Bool-cases (ltb g.limit limit)) [
  | inl raised ↦
      rw (raised, set_limit)
        (record {
          units_asleep = tt;
          units_woken = Units-append g.woken g.asleep a.units_woken a.units_asleep;
          spoken_for = inl refl;
        })
  | inr lowered ↦
      rw (lowered, set_limit)
        (record {
          units_asleep = a.units_asleep;
          units_woken = a.units_woken;
          spoken_for = ground arith;
        })
]

-- What tasks do with the slots. A slot is given back by a task that holds one.
pub data Use (g : Gate) : Gate → Type 0 where
  acquiring : Use g (acquire 1 g)
  resuming : Use g (resume g)
  giving : 0 < g.in_flight → Use g (give_slot 1 g)

pub Use-IsAwake : {g g' : Gate} → Use g g' → IsAwake g → IsAwake g'
Use-IsAwake {g} acquiring a = acquire-IsAwake g a
Use-IsAwake {g} resuming a = resume-IsAwake g a
Use-IsAwake {g} (giving held) a = give_slot-IsAwake g held a

wake-slots :
    (n : ℕ) (l : List ℕ) (g : Gate)
    → ((wake n l g).in_flight ≡ g.in_flight) × ((wake n l g).limit ≡ g.limit)
unfolding wake
wake-slots zero l g = (refl, refl)
wake-slots (suc n) [] g = (refl, refl)
wake-slots (suc n) (c ∷ l) g = wake-slots n l (record g { woken = g.woken ++ c ∷ [] })

recheck-slots :
    (ws : List ℕ) (g : Gate)
    → ((recheck ws g).limit ≡ g.limit)
      × (((recheck ws g).in_flight ≤ g.in_flight) ⊎ ((recheck ws g).in_flight ≤ g.limit))
unfolding recheck fits
recheck-slots [] g = (refl, inl (omega arith))
recheck-slots (c ∷ ws) g = ground arith

-- The limit stays, and a slot is taken only within the limit.
pub Use-slots :
    {g g' : Gate}
    → Use g g'
    → (g'.limit ≡ g.limit) × ((g'.in_flight ≤ g.in_flight) ⊎ (g'.in_flight ≤ g.limit))
Use-slots {g} acquiring = unfold acquire fits in ground arith
Use-slots {g} resuming = unfold resume in recheck-slots g.woken g
Use-slots {g} (giving held) =
    let same = wake-slots 1 g.asleep (record g { in_flight = g.in_flight - 1 }) in
    unfold give_slot notify in (same.1, inl (omega (arith, same.0)))

pub set_limit-slots :
    (limit : ℕ) (g : Gate)
    → ((set_limit limit g).limit ≡ limit) × ((set_limit limit g).in_flight ≡ g.in_flight)
unfolding set_limit notify_all
set_limit-slots limit g = ground arith
