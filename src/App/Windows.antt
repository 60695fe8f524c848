-- ===== src/App/Windows.antt =====
-- The rate limiter over the calls of one key in one window.
use mailslot.Base.{
  arith, ℕ, ◌+◌, ◌≤◌, ◌<◌, String, Bool, true, false, List, [], ◌∷◌, none, some, ◌≡◌, refl, sym,
  ◌==◌, eq_refl, leb, if◌then◌else◌, All, length, Bool-cases, Option-cases, inl, inr, eq_iff,
}
use mailslot.App.RateLimit.{Bucket, get_bucket, set_bucket, is_over, consume_rate_limit}

-- How many of the calls at the given times are allowed.
unfoldable pub count_allowed : ℕ → String → ℕ → List ℕ → List Bucket → ℕ
count_allowed window key max [] bs = 0
count_allowed window key max (now ∷ times) bs =
    let (v, bs') = consume_rate_limit window key max now bs in
    let rest = count_allowed window key max times bs' in if v.allowed then 1 + rest else rest

get-set_bucket : (b : Bucket) (bs : List Bucket) → get_bucket b.key (set_bucket b bs) ≡ some b
unfolding set_bucket get_bucket
get-set_bucket b [] = rw eq_refl refl
get-set_bucket b (old ∷ bs) = elim (Bool-cases (old.key == b.key)) [
  | inl same ↦ rw (same, eq_refl) refl
  | inr other ↦ rw (other, other) (get-set_bucket b bs)
]

get_bucket-key :
    (key : String) (bs : List Bucket) (b : Bucket) → get_bucket key bs ≡ some b → b.key ≡ key
unfolding get_bucket
get_bucket-key key [] b h = cc
get_bucket-key key (old ∷ bs) b h = elim (Bool-cases (old.key == key)) [
  | inl same ↦ let one : old ≡ b = ground arith in rw (← one) ((eq_iff old.key key).0 same)
  | inr other ↦ get_bucket-key key bs b (rw other at h)
]

-- The smaller of two numbers.
abbrev pub smaller : ℕ → ℕ → ℕ
smaller a b = if leb a b then a else b

-- Calls within the window of a bucket are allowed up to the maximum, what it counts included.
count_allowed-within :
    (window : ℕ) (key : String) (max : ℕ) (times : List ℕ) (bs : List Bucket) (b : Bucket)
    → get_bucket key bs ≡ some b
    → b.count ≤ max
    → All (λ now. now < b.window_start + window) times
    → b.count + count_allowed window key max times bs ≡ smaller max (b.count + length times)
unfolding count_allowed consume_rate_limit
count_allowed-within window key max [] bs b found small h = ground arith
count_allowed-within window key max (now ∷ times) bs b found small (early, h) =
    let current : is_over window now b ≡ false = ground arith in
    elim (Bool-cases (leb max b.count)) [
      | inl full ↦
          rw (found, current, full, consume_rate_limit)
            (let rest = count_allowed-within window key max times bs b found small h in
              ground arith)
      | inr room ↦
          rw (found, current, room, consume_rate_limit)
            (let next = record b { count = b.count + 1 } in
              let found' : get_bucket key (set_bucket next bs) ≡ some next =
                rw (sym (get_bucket-key key bs b found)) (get-set_bucket next bs) in
              let rest =
                count_allowed-within window key max times (set_bucket next bs) next found'
                  (ground arith) h in
              ground arith)
    ]

-- No window of the key is open at a time.
unfoldable pub is_closed : ℕ → String → ℕ → List Bucket → Bool
is_closed window key now bs = elim (get_bucket key bs) [
  | none ↦ true
  | some b ↦ is_over window now b
]

-- Of the calls of one key, of which the first comes when no window of the key is open and the
-- others before that call's window is over, exactly the maximum are allowed, or all of them where
-- they are fewer; the maximum is at least one.
pub count_allowed-smaller :
    (window : ℕ) (key : String) (max first : ℕ) (times : List ℕ) (bs : List Bucket)
    → 1 ≤ max
    → is_closed window key first bs ≡ true
    → All (λ now. now < first + window) times
    → count_allowed window key max (first ∷ times) bs ≡ smaller max (1 + length times)
unfolding count_allowed consume_rate_limit is_closed
count_allowed-smaller window key max first times bs some_allowed closed h =
    let fresh : Bucket = record { key = key; window_start = first; count = 1 } in
    let rest =
      count_allowed-within window key max times (set_bucket fresh bs) fresh
        (get-set_bucket fresh bs) some_allowed h in
    elim (Option-cases (get_bucket key bs)) [
      | inl none_yet ↦ rw (none_yet, consume_rate_limit) rest
      | inr (b, found) ↦
          let over : is_over window first b ≡ true = rw (found, is_closed) at closed in
          rw (found, over, consume_rate_limit) rest
    ]
