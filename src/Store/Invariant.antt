-- ===== src/Store/Invariant.antt =====
-- The invariant of the table of messages: distinct ids, and sound rows.
use mailslot.Base.{List, [], ◌∷◌, arith, All}
use mailslot.Types.{StoredMessage}
use mailslot.Store.Rows.{Store}
use mailslot.Store.Methods.{inserted_row}
use mailslot.Store.Events.{
  Event, saves, apply, run, IsSound, Step, stays, is_previewed_at, is_claimed_at, is_paid,
  is_cancelled_at, is_activated, Evolves, nil, keeps, drops, adds, IsUnique,
}
use mailslot.Store.Evolution.{apply-Evolves}
use mailslot.Store.Finality.{apply-IsUnique}

-- Distinct ids and sound rows.
pub record IsWellFormed (st : Store) : Type 0 where
  pub unique : IsUnique st.messages
  pub sound : All IsSound st.messages

-- A message that is saved is sound once its claim is cleared: not settled, with a payment only if
-- it is neither deferred nor cancelled.
abbrev pub IsAdmissible : Event → Type 0
IsAdmissible (saves m) = IsSound (inserted_row m)
IsAdmissible _ = Unit

Step-IsSound : {m n : StoredMessage} → Step m n → IsSound m → IsSound n
Step-IsSound (stays m) s = s
Step-IsSound (is_previewed_at m at h) s = ground arith
Step-IsSound (is_claimed_at m now h) s = ground arith
Step-IsSound (is_paid m) s = ground arith
Step-IsSound (is_cancelled_at m at h) s = ground arith
Step-IsSound (is_activated m payment h) s = ground arith

Evolves-IsSound :
    {e : Event} {ms ns : List StoredMessage}
    → Evolves e ms ns
    → IsAdmissible e
    → All IsSound ms
    → All IsSound ns
Evolves-IsSound nil a h = tt
Evolves-IsSound (keeps s evs) a (h, hs) = (Step-IsSound s h, Evolves-IsSound evs a hs)
Evolves-IsSound (drops w evs) a (h, hs) = Evolves-IsSound evs a hs
Evolves-IsSound (adds m is_save) a h = (rw is_save at a, tt)

-- Every call of the store keeps the ids distinct and the rows sound.
pub apply-IsWellFormed :
    (e : Event) (st : Store) → IsAdmissible e → IsWellFormed st → IsWellFormed (apply e st)
apply-IsWellFormed e st a w = record {
  unique = apply-IsUnique e st w.unique;
  sound = Evolves-IsSound (apply-Evolves st w.unique e) a w.sound;
}

-- So does every sequence of calls.
pub run-IsWellFormed :
    (es : List Event) (st : Store)
    → All IsAdmissible es
    → IsWellFormed st
    → IsWellFormed (run es st)
unfolding run
run-IsWellFormed [] st a w = w
run-IsWellFormed (e ∷ es) st (a, as_) w =
    run-IsWellFormed es (apply e st) as_ (apply-IsWellFormed e st a w)
