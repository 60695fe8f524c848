-- ===== src/Store/Newest.antt =====
-- Rows in the order of the inbox: sorting them keeps each of them.
use mathlib.Core.List.{Perm}
use mathlib.Core.List.Perm
use mailslot.Base.{
  ℕ, suc, ◌≤◌, List, [], ◌∷◌, ◌≡◌, refl, ltb, arith, All, length, Bool-cases, inl, inr, ltb→lt,
}
use mailslot.Types.{StoredMessage}
use mailslot.Store.Rows.{insert_newest, newest_first}

-- Each row is followed by rows that are no newer.
abbrev pub IsNewestFirst : List StoredMessage → Type 0
IsNewestFirst [] = Unit
IsNewestFirst (m ∷ ms) = All (λ n. n.sent_at ≤ m.sent_at) ms × IsNewestFirst ms

insert_newest-All :
    (P : StoredMessage → Type 0) (m : StoredMessage) (ms : List StoredMessage)
    → P m
    → All P ms
    → All P (insert_newest m ms)
unfolding insert_newest
insert_newest-All P m [] p h = (p, tt)
insert_newest-All P m (n ∷ ms) p (q, h) = elim (Bool-cases (ltb m.sent_at n.sent_at)) [
  | inl older ↦ rw older (q, insert_newest-All P m ms p h)
  | inr newer ↦ rw newer (p, (q, h))
]

All-le_trans :
    (a b : ℕ) (ms : List StoredMessage)
    → a ≤ b
    → All (λ n. n.sent_at ≤ a) ms
    → All (λ n. n.sent_at ≤ b) ms
All-le_trans a b [] h hs = tt
All-le_trans a b (m ∷ ms) h (p, hs) = (omega arith, All-le_trans a b ms h hs)

insert_newest-IsNewestFirst :
    (m : StoredMessage) (ms : List StoredMessage)
    → IsNewestFirst ms
    → IsNewestFirst (insert_newest m ms)
unfolding insert_newest
insert_newest-IsNewestFirst m [] h = (tt, tt)
insert_newest-IsNewestFirst m (n ∷ ms) (below, h) = elim (Bool-cases (ltb m.sent_at n.sent_at)) [
  | inl older ↦ rw older (
    insert_newest-All (λ k. k.sent_at ≤ n.sent_at) m ms (omega (arith, ltb→lt _ _ older)) below,
    insert_newest-IsNewestFirst m ms h,
  )
  | inr newer ↦
      let le : n.sent_at ≤ m.sent_at = ground arith in
      rw newer ((le, All-le_trans n.sent_at m.sent_at ms le below), (below, h))
]

pub newest_first-IsNewestFirst : (ms : List StoredMessage) → IsNewestFirst (newest_first ms)
unfolding newest_first
newest_first-IsNewestFirst [] = tt
newest_first-IsNewestFirst (m ∷ ms) =
    insert_newest-IsNewestFirst m (newest_first ms) (newest_first-IsNewestFirst ms)

pub newest_first-All :
    (P : StoredMessage → Type 0) (ms : List StoredMessage) → All P ms → All P (newest_first ms)
unfolding newest_first
newest_first-All P [] h = tt
newest_first-All P (m ∷ ms) (p, h) =
    insert_newest-All P m (newest_first ms) p (newest_first-All P ms h)

length-insert_newest :
    (m : StoredMessage) (ms : List StoredMessage) → length (insert_newest m ms) ≡ suc (length ms)
unfolding insert_newest
length-insert_newest m [] = refl
length-insert_newest m (n ∷ ms) = ground (arith, length-insert_newest m ms)

pub length-newest_first : (ms : List StoredMessage) → length (newest_first ms) ≡ length ms
unfolding newest_first
length-newest_first [] = refl
length-newest_first (m ∷ ms) =
    omega (arith, length-insert_newest m (newest_first ms), length-newest_first ms)

insert_newest-perm :
    (m : StoredMessage) (ms : List StoredMessage) → Perm (insert_newest m ms) (m ∷ ms)
unfolding insert_newest
insert_newest-perm m [] = Perm.rfl
insert_newest-perm m (n ∷ ms) = elim (Bool-cases (ltb m.sent_at n.sent_at)) [
  | inl older ↦ rw older (Perm.trans (Perm.cons n (insert_newest-perm m ms)) (Perm.swap m n ms))
  | inr newer ↦ rw newer Perm.rfl
]

-- Sorting leaves no row out and makes none up.
pub newest_first-perm : (ms : List StoredMessage) → Perm (newest_first ms) ms
unfolding newest_first
newest_first-perm [] = Perm.rfl
newest_first-perm (m ∷ ms) =
    Perm.trans (insert_newest-perm m (newest_first ms)) (Perm.cons m (newest_first-perm ms))
