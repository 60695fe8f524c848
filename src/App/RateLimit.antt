-- ===== src/App/RateLimit.antt =====
-- `consumeRateLimit` and `rateLimitCategory`: a fixed window for each key.
use mailslot.Base.{
  ℕ, ◌+◌, ◌-◌, ◌/◌, String, Bool, true, false, List, [], ◌∷◌, Option, none, some, ◌==◌, ◌||◌, ltb,
  leb, if◌then◌else◌,
}
use text.Mathlib.Text.{starts_with}

pub record Bucket : Type 0 where
  pub key : String
  pub window_start : ℕ
  pub count : ℕ

pub record Verdict : Type 0 where
  pub allowed : Bool
  pub retry_after_seconds : ℕ

-- `Math.ceil(ms / 1000)`
abbrev pub seconds : ℕ → ℕ
seconds ms = (ms + 999) / 1000

-- `Math.max(1000, ms)`
abbrev pub at_least_second : ℕ → ℕ
at_least_second ms = if ltb ms 1000 then 1000 else ms

unfoldable pub get_bucket : String → List Bucket → Option Bucket
get_bucket key [] = none
get_bucket key (b ∷ bs) = if b.key == key then some b else get_bucket key bs

unfoldable pub set_bucket : Bucket → List Bucket → List Bucket
set_bucket b [] = b ∷ []
set_bucket b (old ∷ bs) = if old.key == b.key then b ∷ bs else old ∷ set_bucket b bs

-- A bucket whose window is over counts as none; the clock may have gone back, and then the window
-- is not over.
abbrev pub is_over : ℕ → ℕ → Bucket → Bool
is_over window now b = leb (b.window_start + window) now

-- What is left of a window.
abbrev pub remaining : ℕ → ℕ → Bucket → ℕ
remaining window now b = b.window_start + window - now

unfoldable pub consume_rate_limit : ℕ → String → ℕ → ℕ → List Bucket → Verdict × List Bucket
consume_rate_limit window key max now bs =
    let fresh : Verdict × List Bucket = (
      record { allowed = true; retry_after_seconds = seconds window },
      set_bucket (record { key = key; window_start = now; count = 1 }) bs,
    ) in
    elim (get_bucket key bs) [
      | none ↦ fresh
      | some b ↦
          if is_over window now b
          then fresh
          else if leb max b.count
          then (
            record {
              allowed = false;
              retry_after_seconds = seconds (at_least_second (remaining window now b));
            },
            bs,
          )
          else (
            record { allowed = true; retry_after_seconds = seconds (remaining window now b) },
            set_bucket (record b { count = b.count + 1 }) bs,
          )
    ]

pub data Category : Type 0 where
  admin hook send auth default : Category

-- `rateLimitCategory`: the pages and the health checks are not limited.
unfoldable pub rate_limit_category : String → Option Category
rate_limit_category path =
    if path == "/health"
      || path == "/status"
      || path == "/"
      || path == "/ui"
      || starts_with path "/assets/"
    then none
    else if starts_with path "/admin/"
    then some admin
    else if path == "/hooks/dispute"
    then some hook
    else if starts_with path "/messages/"
    then some send
    else if path == "/inbox"
        || starts_with path "/inbox/"
        || path == "/tap/state"
        || starts_with path "/tap/"
    then some auth
    else some default
