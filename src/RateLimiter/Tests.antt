-- ===== src/RateLimiter/Tests.antt =====
-- Runs of the limiter, and its theorems at concrete inputs.
use vcv_rack_mcp.Prelude.{ℕ, ◌≤◌, ◌≡◌, ◌↔◌, refl, List, [], ◌∷◌, arith}
use vcv_rack_mcp.RateLimiter.{
  RateLimiter, admit, admitted, rate_limited, new_rate_limiter, expire, retry_in_ms,
}
use vcv_rack_mcp.RateLimiter.Window.{Call, count_in, admitted_log, admitted_log_bound}
use vcv_rack_mcp.RateLimiter.Retry.{admit_after_window, admit_oversized}

abbrev busy : RateLimiter
busy = record { limit = 2; window_ms = 1000; hits = 50 ∷ 60 ∷ [] }

still_busy : admit 1049 1049 1 busy ≡ rate_limited 1 busy
unfolding admit expire retry_in_ms
still_busy = refl

one_expired :
    admit 1050 1051 1 busy
    ≡ admitted (record { limit = 2; window_ms = 1000; hits = 60 ∷ 1051 ∷ [] })
unfolding admit expire
one_expired = refl

abbrev call : ℕ → ℕ → Call
call at count = record { cut = at; at = at; count = count }

-- The third call comes too early and is refused.
abbrev calls : List Call
calls = call 10 1 ∷ call 20 1 ∷ call 900 1 ∷ call 1015 1 ∷ []

admitted_log_bound_example : count_in 1000 1015 (admitted_log (new_rate_limiter 2 1000) calls) ≤ 2
admitted_log_bound_example = admitted_log_bound 2 1000 calls 1015 (omega arith) (omega arith)

admit_after_window_example : ((r : RateLimiter) × (admit 2000 2000 2 busy ≡ admitted r)) ↔ (2 ≤ 2)
admit_after_window_example = admit_after_window 2000 2000 2 busy (omega arith) (omega arith)

admit_oversized_example :
    (ms : ℕ) × (r : RateLimiter) × (admit 5000 5000 3 busy ≡ rate_limited ms r)
admit_oversized_example = admit_oversized 5000 5000 3 busy (omega arith) (omega arith)
