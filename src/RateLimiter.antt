-- ===== src/RateLimiter.antt =====
-- apps/mcp-server/src/ratelimit.ts: the sliding window over parameter changes.
-- Clock readings are arguments, one for each reading whose value matters.
pub mod Window
pub mod Retry
mod Tests
use vcv_rack_mcp.Prelude.{
  ℕ, ◌+◌, ◌-◌, max, List, [], ◌∷◌, ◌++◌, leb, ltb, ◌||◌, if◌then◌else◌, length, replicate,
}

pub record RateLimiter : Type 0 where
  pub limit : ℕ
  pub window_ms : ℕ
  pub hits : List ℕ

pub data Admission : Type 0 where
  -- The limiter afterwards.
  admitted : RateLimiter → Admission
  -- RATE_LIMITED with `retryInMs`, and the limiter afterwards.
  rate_limited : ℕ → RateLimiter → Admission

-- `while (hits.length > 0 && hits[0] <= cutoff) hits.shift()`, where the cutoff is `at - windowMs`.
unfoldable pub expire : ℕ → ℕ → List ℕ → List ℕ
expire window at [] = []
expire window at (h ∷ hs) = if leb (h + window) at then expire window at hs else h ∷ hs

-- `Math.max(1, hits[0] + windowMs - now())`, or 1 where nothing is held.
unfoldable pub retry_in_ms : ℕ → ℕ → List ℕ → ℕ
retry_in_ms window at [] = 1
retry_in_ms window at (h ∷ hs) = max 1 (h + window - at)

-- `cut` is the clock at the cutoff, `at` at its last reading (the retry time or the new entries).
unfoldable pub admit : ℕ → ℕ → ℕ → RateLimiter → Admission
admit cut at count r =
    if leb count 0 || leb r.limit 0
    then admitted r
    else let kept = expire r.window_ms cut r.hits in
      if ltb r.limit (length kept + count)
      then rate_limited (retry_in_ms r.window_ms at kept) (record r { hits = kept })
      else admitted (record r { hits = kept ++ replicate count at })

-- A limiter as the constructor makes it.
abbrev pub new_rate_limiter : ℕ → ℕ → RateLimiter
new_rate_limiter limit window_ms = record { limit = limit; window_ms = window_ms; hits = [] }
