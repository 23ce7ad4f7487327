-- ===== src/Dispatcher/Headers.antt =====
-- `_strip_hop_by_hop` drops the headers of the connection and keeps every other one.
use adaptive_admission_contr.Base.{
  lower, ◌≡◌, refl, Bool, true, not, if◌then◌else◌, List, [], ◌∷◌, filter, Text, ◌==◌, ==_iff,
  arith,
}
use adaptive_admission_contr.Dispatcher.{strip_hop_by_hop, is_hop_by_hop}

-- The values of a header, in the order in which they stand; names compare without case.
pub values : Text → List (Text × Text) → List Text
values k [] = []
values k ((k', v) ∷ items) = if lower k == lower k' then v ∷ values k items else values k items

is_hop_by_hop-lower :
    (k k' : Text) → (lower k == lower k') ≡ true → is_hop_by_hop k ≡ is_hop_by_hop k'
unfolding is_hop_by_hop
is_hop_by_hop-lower k k' e = let same = (==_iff (lower k) (lower k')).0 e in rw same refl

values-filter :
    (drops : Text → Bool)
    → ((k k' : Text) → (lower k == lower k') ≡ true → drops k ≡ drops k')
    → (k : Text) (items : List (Text × Text))
    → values k (filter (λ e. not (drops e.0)) items) ≡ (if drops k then [] else values k items)
unfolding values
values-filter drops same k [] = ground arith
values-filter drops same k ((k', v) ∷ items) =
    ground (arith, values-filter drops same k items, same k k')

-- Under every name, the headers that are passed on are all those received, in the same order and
-- with every repetition, unless the name is one of the nine that belong to the connection, in any
-- case of its letters: then there are none.
pub values-strip_hop_by_hop :
    (k : Text) (items : List (Text × Text))
    → values k (strip_hop_by_hop items) ≡ (if is_hop_by_hop k then [] else values k items)
unfolding strip_hop_by_hop
values-strip_hop_by_hop k items = values-filter is_hop_by_hop is_hop_by_hop-lower k items
