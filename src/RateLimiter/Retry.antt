-- ===== src/RateLimiter/Retry.antt =====
-- ratelimit.ts: whether waiting out the window, as the error advises, can help.
use vcv_rack_mcp.Prelude.{
  ℕ, ◌+◌, ◌≤◌, ◌<◌, ◌≡◌, refl, ◌↔◌, inl, inr, List, [], ◌∷◌, ◌++◌, replicate, All, arith, leb,
  Bool-cases,
}
use vcv_rack_mcp.RateLimiter.{RateLimiter, admit, expire, admitted, rate_limited, retry_in_ms}

expire-All : (w t : ℕ) (hs : List ℕ) → All (λ h. h + w ≤ t) hs → expire w t hs ≡ []
unfolding expire
expire-All w t [] e = refl
expire-All w t (h ∷ hs) e = ground (arith, expire-All w t hs e.1)

-- Once every change that the limiter holds has left the window, a request of `count` changes is
-- admitted exactly when `count` is at most the limit.
pub admit_after_window :
    (cut at count : ℕ) (r : RateLimiter)
    → 0 < r.limit
    → All (λ h. h + r.window_ms ≤ cut) r.hits
    → ((r' : RateLimiter) × (admit cut at count r ≡ admitted r')) ↔ (count ≤ r.limit)
unfolding admit
admit_after_window cut at count r pos old = (
  λ (r', e). ground (arith, expire-All r.window_ms cut r.hits old),
  λ fits. elim (Bool-cases (leb count 0)) [
    | inl z ↦ (r, ground arith)
    | inr nz ↦ (
      record r { hits = expire r.window_ms cut r.hits ++ replicate count at },
      ground (arith, expire-All r.window_ms cut r.hits old),
    )
  ],
)

-- A request of more changes than the limit is refused at every time and in every state of a limiter
-- with a positive limit, whatever the caller waits.
pub admit_oversized :
    (cut at count : ℕ) (r : RateLimiter)
    → 0 < r.limit
    → r.limit < count
    → (ms : ℕ) × (r' : RateLimiter) × (admit cut at count r ≡ rate_limited ms r')
unfolding admit
admit_oversized cut at count r pos big =
    let kept = expire r.window_ms cut r.hits in
    (retry_in_ms r.window_ms at kept, record r { hits = kept }, ground arith)
