-- ===== src/Limiter.antt =====
-- internal/dashboard/ratelimit/limiter.go: a token bucket for each client and category. Times are
-- nanoseconds. The code takes time.Now().UTC(), which has no monotonic reading, so a clock that is set
-- back can make them run backwards; nothing is refilled then.
pub mod Bound
mod Examples
use aegis_claw.Base.{
  ℕ, ◌+◌, ◌-◌, ◌*◌, ◌/◌, Bool, true, false, List, [], ◌∷◌, ◌++◌, Option, none, some, if◌then◌else◌,
  ltb, leb, ◌==◌,
}
use aegis_claw.Base.Text.{Text, text, same, same_refl, eq_of_same, is_empty}
use aegis_claw.Base.Assoc.{Key, lookup, insert}

abbrev pub text_key : Key Text
text_key = record { beq = same; beq_refl = same_refl; eq_of_beq = eq_of_same }

pub record Limit : Type 0 where
  pub max : ℕ
  pub window : ℕ

pub record Bucket : Type 0 where
  pub tokens : ℕ
  pub last_refill : ℕ
  pub max : ℕ
  pub window : ℕ

abbrev pub Buckets : Type 0
Buckets = List (Text × Bucket)

-- time.Minute
abbrev pub minute : ℕ
minute = 60000000000

abbrev pub limits : List (Text × Limit)
limits =
    (text "proposal_action", record { max = 12; window = minute })
    ∷ (text "agent_control", record { max = 24; window = minute })
    ∷ (text "member_remove", record { max = 10; window = minute })
    ∷ (text "channel_archive", record { max = 6; window = minute })
    ∷ []

-- The refill of a bucket at the time `now`, before a token is taken.
unfoldable pub refill : Bucket → ℕ → Bucket
refill b now =
    let elapsed = now - b.last_refill in
    let refills = elapsed / b.window in
    let tokens = b.tokens + refills * b.max in
    if leb b.window elapsed
    then (if ltb 0 refills
        then record b { tokens = if ltb b.max tokens then b.max else tokens; last_refill = now }
        else b)
    else b

abbrev pub take_token : Bucket → Bucket × Bool
take_token b = if b.tokens == 0 then (b, false) else (record b { tokens = b.tokens - 1 }, true)

abbrev pub new_bucket : Limit → ℕ → Bucket
new_bucket cfg now = record {
  tokens = cfg.max;
  last_refill = now;
  max = cfg.max;
  window = cfg.window;
}

-- The bucket that the map holds, or the one that is put there.
abbrev pub bucket_of : Limit → ℕ → Option Bucket → Bucket
bucket_of cfg now none = new_bucket cfg now
bucket_of cfg now (some b) = b

abbrev pub bucket_name : Text → Text → Text
bucket_name client_key cat = client_key ++ (text ":" ++ cat)

unfoldable pub allow : Buckets → Text → Text → ℕ → Buckets × Bool
unfolding refill
allow buckets client_key cat now = elim (lookup text_key cat limits) [
  | none ↦ (buckets, true)
  | some cfg ↦
      let name = bucket_name client_key cat in
      let held = bucket_of cfg now (lookup text_key name buckets) in
      let (b, allowed) = take_token (refill held now) in
      if is_empty client_key then (buckets, true) else (insert text_key name b buckets, allowed)
]
