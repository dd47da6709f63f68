-- ===== src/RateLimiter/Window.antt =====
-- ratelimit.ts over a history of calls: how many changes any window admits.
use vcv_rack_mcp.Prelude.{
  ℕ, zero, suc, ◌+◌, ◌≤◌, ◌<◌, ◌≡◌, refl, ◌⊎◌, inl, inr, true, false, List, [], ◌∷◌, ◌++◌, leb, ltb,
  ◌&&◌, if◌then◌else◌, length, length-replicate, replicate, All, arith, Bool-cases, ltb→lt, ap,
  All-append,
}
use vcv_rack_mcp.RateLimiter.{
  RateLimiter, admit, expire, Admission, admitted, rate_limited, new_rate_limiter, retry_in_ms,
}

pub record Call : Type 0 where
  pub cut : ℕ
  pub at : ℕ
  pub count : ℕ

-- The timestamps of the changes that a sequence of calls admits, oldest first.
pub admitted_log : RateLimiter → List Call → List ℕ
admitted_log r [] = []
admitted_log r (c ∷ cs) = elim (admit c.cut c.at c.count r) [
  | admitted r' ↦ replicate c.count c.at ++ admitted_log r' cs
  | rate_limited ms r' ↦ admitted_log r' cs
]

-- The changes in the window that ends at `x`, exclusive of its start: `x - window < h <= x`.
pub count_in : ℕ → ℕ → List ℕ → ℕ
count_in window x [] = 0
count_in window x (h ∷ hs) =
    if ltb x (h + window) && leb h x then suc (count_in window x hs) else count_in window x hs

-- The clock never goes back.
abbrev pub IsMonotone : ℕ → List Call → Type 0
IsMonotone t [] = Unit
IsMonotone t (c ∷ cs) = (t ≤ c.cut) × (c.cut ≤ c.at) × IsMonotone c.at cs

abbrev Expired : ℕ → ℕ → List ℕ → Type 0
Expired window t = All (λ h. h + window ≤ t)

module _ (w : ℕ) where
  count_in-append :
      (x : ℕ) (hs ks : List ℕ) → count_in w x (hs ++ ks) ≡ count_in w x hs + count_in w x ks
  unfolding count_in
  count_in-append x [] ks = omega arith
  count_in-append x (h ∷ hs) ks = ground (arith, count_in-append x hs ks)

  count_in-le-length : (x : ℕ) (hs : List ℕ) → count_in w x hs ≤ length hs
  unfolding count_in
  count_in-le-length x [] = omega arith
  count_in-le-length x (h ∷ hs) = ground (arith, count_in-le-length x hs)

  count_in-Expired : (x t : ℕ) (hs : List ℕ) → t ≤ x → Expired w t hs → count_in w x hs ≡ 0
  unfolding count_in
  count_in-Expired x t [] le e = refl
  count_in-Expired x t (h ∷ hs) le e = ground (arith, count_in-Expired x t hs le e.1)

  count_in-later : (x at n : ℕ) → x < at → count_in w x (replicate n at) ≡ 0
  unfolding count_in
  count_in-later x at zero lt = refl
  count_in-later x at (suc n) lt = ground (arith, count_in-later x at n lt)

  -- `expire` splits off a prefix that has expired.
  expire_split :
      (t : ℕ) (hs : List ℕ) → (old : List ℕ) × Expired w t old × (hs ≡ old ++ expire w t hs)
  unfolding expire
  expire_split t [] = ([], tt, refl)
  expire_split t (h ∷ hs) = elim (Bool-cases (leb (h + w) t)) [
    | inl e ↦ let (old, x, s) = expire_split t hs in (h ∷ old, (ground arith, x), ground arith)
    | inr e ↦ ([], tt, ground arith)
  ]

abbrev keep_hits : RateLimiter → List ℕ → RateLimiter
keep_hits r hs = record r { hits = hs }

-- What a call with a positive limit does.
abbrev Outcome : ℕ → ℕ → ℕ → RateLimiter → Admission → Type 0
Outcome cut at n r a =
    ((n ≡ 0) × (a ≡ admitted r))
    ⊎ ((length (expire r.window_ms cut r.hits) + n ≤ r.limit)
        × (a ≡ admitted (keep_hits r (expire r.window_ms cut r.hits ++ replicate n at))))
    ⊎ ((ms : ℕ) × (a ≡ rate_limited ms (keep_hits r (expire r.window_ms cut r.hits))))

admit_cases : (cut at n : ℕ) (r : RateLimiter) → 0 < r.limit → Outcome cut at n r (admit cut at n r)
unfolding admit
admit_cases cut at n r pos = elim (Bool-cases (leb n 0)) [
  | inl z ↦ inl (ground arith, ground arith)
  | inr nz ↦ elim (Bool-cases (ltb r.limit (length (expire r.window_ms cut r.hits) + n))) [
    | inl over ↦
        inr (inr (retry_in_ms r.window_ms at (expire r.window_ms cut r.hits), ground arith))
    | inr fits ↦ inr (inl (ground arith, ground arith))
  ]
]

-- The history so far: changes that have left the window, then the ones that the limiter holds.
record Inv (r : RateLimiter) (t : ℕ) (old : List ℕ) : Type 0 where
  positive : 0 < r.limit
  expired : Expired r.window_ms t old
  bounded : (x : ℕ) → count_in r.window_ms x old + count_in r.window_ms x r.hits ≤ r.limit

Expired-mono : (w t u : ℕ) (hs : List ℕ) → t ≤ u → Expired w t hs → Expired w u hs
Expired-mono w t u [] le e = tt
Expired-mono w t u (h ∷ hs) le e = (omega arith, Expired-mono w t u hs le e.1)

expire-Inv :
    (r : RateLimiter) (t cut : ℕ) (old : List ℕ)
    → Inv r t old
    → t ≤ cut
    → (more : List ℕ) × Inv (keep_hits r (expire r.window_ms cut r.hits)) cut (old ++ more)
      × ((x : ℕ)
          → count_in r.window_ms x (old ++ more)
              + count_in r.window_ms x (expire r.window_ms cut r.hits)
            ≡ count_in r.window_ms x old + count_in r.window_ms x r.hits)
expire-Inv r t cut old v le =
    let w = r.window_ms in
    let (more, e, s) = expire_split w cut r.hits in
    let same = λ (x : ℕ).
      let ks = expire w cut r.hits in
      let total : count_in w x (old ++ more) + count_in w x ks
          ≡ count_in w x old + count_in w x r.hits =
        omega
          (arith, count_in-append w x old more, count_in-append w x more ks, ap (count_in w x) s) in
      total in
    (
      more,
      record {
        positive = v.positive;
        expired = All-append _ old more (Expired-mono w t cut old le v.expired) e;
        bounded = λ x. omega (arith, same x, v.bounded x);
      },
      same,
    )

record_hits-Inv :
    (r : RateLimiter) (cut at n : ℕ) (old : List ℕ)
    → Inv r cut old
    → cut ≤ at
    → length r.hits + n ≤ r.limit
    → Inv (keep_hits r (r.hits ++ replicate n at)) at old
record_hits-Inv r cut at n old v le fits = record {
  positive = v.positive;
  expired = Expired-mono r.window_ms cut at old le v.expired;
  bounded = λ x. go x (Bool-cases (ltb x at));
}
  where
    go :
        (x : ℕ)
        → (ltb x at ≡ true) ⊎ (ltb x at ≡ false)
        → count_in r.window_ms x old + count_in r.window_ms x (r.hits ++ replicate n at) ≤ r.limit
    go x (inl early) = omega (
      arith,
      v.bounded x,
      count_in-append r.window_ms x r.hits (replicate n at),
      count_in-later r.window_ms x at n (ltb→lt x at early),
    )
    go x (inr late) =
        let after : at ≤ x = ground arith in
        omega (
          arith,
          count_in-append r.window_ms x r.hits (replicate n at),
          count_in-Expired r.window_ms x cut old (omega arith) v.expired,
          count_in-le-length r.window_ms x r.hits,
          count_in-le-length r.window_ms x (replicate n at),
          length-replicate n at,
        )

history_bound :
    (cs : List Call) (r : RateLimiter) (t : ℕ) (old : List ℕ)
    → Inv r t old
    → IsMonotone t cs
    → (x : ℕ)
    → count_in r.window_ms x old
        + count_in r.window_ms x r.hits
        + count_in r.window_ms x (admitted_log r cs)
      ≤ r.limit
unfolding admitted_log count_in
history_bound [] r t old v m x = omega (arith, v.bounded x)
history_bound (c ∷ cs) r t old v (le, le', m) x =
    elim (admit_cases c.cut c.at c.count r v.positive) [
      | inl (z, e) ↦ rw (e, admitted_log) (rw z (history_bound cs r c.at old later m x))
      | inr (inl (fits, e)) ↦
          rw (e, admitted_log)
            (let (more, shed, same) = expire-Inv r t c.cut old v le in
              let kept = expire r.window_ms c.cut r.hits in
              let fresh = replicate c.count c.at in
              let held =
                record_hits-Inv (keep_hits r kept) c.cut c.at c.count (old ++ more) shed le' fits in
              let rest =
                history_bound cs (keep_hits r (kept ++ fresh)) c.at (old ++ more) held m x in
              omega (
                arith,
                rest,
                same x,
                count_in-append r.window_ms x kept fresh,
                count_in-append r.window_ms x fresh (admitted_log (keep_hits r (kept ++ fresh)) cs),
              ))
      | inr (inr (ms, e)) ↦
          rw (e, admitted_log)
            (let (more, shed, same) = expire-Inv r t c.cut old v le in
              let kept = expire r.window_ms c.cut r.hits in
              let waited : Inv (keep_hits r kept) c.at (old ++ more) = record {
                positive = v.positive;
                expired = Expired-mono r.window_ms c.cut c.at (old ++ more) le' shed.expired;
                bounded = shed.bounded;
              } in
              omega
                (arith, history_bound cs (keep_hits r kept) c.at (old ++ more) waited m x, same x))
    ]
  where
    later : Inv r c.at old
    later = record {
      positive = v.positive;
      expired = Expired-mono r.window_ms t c.at old (omega arith) v.expired;
      bounded = v.bounded;
    }

-- For a positive limit and a clock that never goes back, whatever calls are made and whichever of
-- them are refused, every window of `window_ms` that ends at some `x` holds at most `limit` of the
-- admitted changes.
pub admitted_log_bound :
    (limit window_ms : ℕ) (cs : List Call) (x : ℕ)
    → 0 < limit
    → IsMonotone 0 cs
    → count_in window_ms x (admitted_log (new_rate_limiter limit window_ms) cs) ≤ limit
unfolding count_in
admitted_log_bound limit window_ms cs x pos m = omega (
  arith,
  history_bound cs (new_rate_limiter limit window_ms) 0 []
      (record { positive = pos; expired = tt; bounded = λ y. omega arith }) m x,
)
