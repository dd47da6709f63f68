-- ===== src/Audit/Size.antt =====
-- audit.ts: the live log stays near the size that is retained.
use vcv_rack_mcp.Prelude.{
  ℕ, ◌+◌, ◌≤◌, ◌<◌, ◌≡◌, refl, inl, inr, min, max, String, true, false, List, [], ◌∷◌, ◌++◌, All,
  arith, Bool-cases, Option-cases, ◌==◌, ltb, leb, ◌||◌, ◌&&◌, not, subst, sym, ap,
}
use vcv_rack_mcp.Audit.{
  AuditLog, AuditRetention, FileAnswers, expire_rotated, ensure_file, check_threshold, file_size,
  rotate, rotate_if_large, record_line, record_all, is_expired,
}

module _ (bytes : String → ℕ) where
  -- What is on top of the limit has been written since the last check, and that is less than what
  -- prompts the next.
  pub record IsBounded (a : AuditLog) : Type 0 where
    pub near : file_size bytes a.live ≤ a.retention.max_bytes + a.since_check
    pub fresh : a.since_check < min 65_536 (max 1 a.retention.max_bytes)

  file_size-append :
      (lines : List String) (line : String)
      → file_size bytes (lines ++ (line ∷ [])) ≡ file_size bytes lines + bytes line
  file_size-append [] line = omega arith
  file_size-append (l ∷ lines) line = ground (arith, file_size-append lines line)

  expire-same :
      (w : FileAnswers) (a : AuditLog)
      → ((expire_rotated w a).live ≡ a.live)
        × ((expire_rotated w a).since_check ≡ a.since_check)
        × ((expire_rotated w a).retention ≡ a.retention)
  unfolding expire_rotated
  expire-same w a = elim (Option-cases a.rotated) [
    | inl gone ↦ rw (gone, expire_rotated) (refl, refl, refl)
    | inr (r, there) ↦
        elim (Bool-cases
          (not (a.retention.max_age_days == 0) && is_expired w.now a.retention r && w.removes)) [
            | inl old ↦
                (ground (arith, there, old), ground (arith, there, old), ground (arith, there, old))
            | inr young ↦ (
              ground (arith, there, young),
              ground (arith, there, young),
              ground (arith, there, young),
            )
          ]
  ]

  ensure-same :
      (w : FileAnswers) (a : AuditLog)
      → let ready = (ensure_file w a).0 in
        (ready.live ≡ a.live)
        × (ready.since_check ≡ a.since_check)
        × (ready.retention ≡ a.retention)
  unfolding ensure_file
  ensure-same w a = elim (Bool-cases a.opened) [
    | inl open_ ↦ (ground (arith, open_), ground (arith, open_), ground (arith, open_))
    | inr new ↦ elim (Bool-cases w.makes_directory) [
      | inl made ↦
          let (live, since, retention) = expire-same w a in
          (
            ground (arith, new, made, live),
            ground (arith, new, made, since),
            ground (arith, new, made, retention),
          )
      | inr failed ↦
          (ground (arith, new, failed), ground (arith, new, failed), ground (arith, new, failed))
    ]
  ]

  -- Bounded, with the retention that it has had.
  record IsKept (r : AuditRetention) (a : AuditLog) : Type 0 where
    retained : a.retention ≡ r
    bounded : IsBounded a

  rotate-IsKept :
      (w : FileAnswers) (a : AuditLog)
      → w.renames ≡ true
      → a.since_check ≡ 0
      → IsKept a.retention (rotate bytes w a)
  unfolding rotate
  rotate-IsKept w a renames zero_since =
      let (live, since, retention) = expire-same w a in
      record {
        retained = ground (arith, renames, retention);
        bounded = record {
          near = ground (arith, renames, since, retention);
          fresh = ground (arith, renames, since, retention, zero_since);
        };
      }

  rotate_if_large-IsKept :
      (w : FileAnswers) (a : AuditLog)
      → 0 < a.retention.max_bytes
      → file_size bytes a.live ≤ a.retention.max_bytes + a.since_check
      → w.inspects ≡ true
      → w.renames ≡ true
      → IsKept a.retention (rotate_if_large bytes w a)
  unfolding rotate_if_large
  rotate_if_large-IsKept w a limited near inspects renames =
      elim (Bool-cases
        (a.retention.max_bytes == 0 || ltb a.since_check (check_threshold a.retention))) [
          | inl early ↦ subst (IsKept a.retention) (sym (not_due early)) (record {
            retained = refl;
            bounded = record { near = near; fresh = ground (arith, early, limited) };
          })
          | inr due ↦
              elim (Bool-cases
                (not w.inspects || leb (file_size bytes a.live) a.retention.max_bytes)) [
                  | inl small ↦ subst (IsKept a.retention) (sym (fits due small)) (record {
                    retained = refl;
                    bounded = record {
                      near = ground (arith, inspects, small);
                      fresh = omega arith;
                    };
                  })
                  | inr large ↦
                      subst (IsKept a.retention) (sym (rotates due large))
                        (rotate-IsKept w (record a { since_check = 0 }) renames refl)
                ]
        ]
    where
      not_due :
          (a.retention.max_bytes == 0 || ltb a.since_check (check_threshold a.retention)) ≡ true
          → rotate_if_large bytes w a ≡ a
      not_due early = ground (arith, early)

      fits :
          (a.retention.max_bytes == 0 || ltb a.since_check (check_threshold a.retention)) ≡ false
          → (not w.inspects || leb (file_size bytes a.live) a.retention.max_bytes) ≡ true
          → rotate_if_large bytes w a ≡ record a { since_check = 0 }
      fits due small = ground (arith, due, small)

      rotates :
          (a.retention.max_bytes == 0 || ltb a.since_check (check_threshold a.retention)) ≡ false
          → (not w.inspects || leb (file_size bytes a.live) a.retention.max_bytes) ≡ false
          → rotate_if_large bytes w a ≡ rotate bytes w (record a { since_check = 0 })
      rotates due large = ground (arith, due, large)

  record_line-IsKept :
      (w : FileAnswers) (line : String) (a : AuditLog)
      → 0 < a.retention.max_bytes
      → w.inspects ≡ true
      → w.renames ≡ true
      → IsBounded a
      → IsKept a.retention (record_line bytes w line a)
  unfolding record_line
  record_line-IsKept w line a limited inspects renames b =
      let (live, since, retention) = ensure-same w a in
      let ready = (ensure_file w a).0 in
      let near = b.near in
      let fresh = b.fresh in
      let appended = record ready {
        live = ready.live ++ (line ∷ []);
        since_check = ready.since_check + bytes line;
      } in
      let grown = file_size-append ready.live line in
      let size = ap (file_size bytes) live in
      elim (Bool-cases ((ensure_file w a).1 && w.appends)) [
        | inl written ↦
            let same : record_line bytes w line a ≡ rotate_if_large bytes w appended =
              ground (arith, written) in
            subst (λ (r : AuditRetention). IsKept r (record_line bytes w line a)) retention
              (subst (IsKept ready.retention) (sym same) (
                rotate_if_large-IsKept w appended (ground (arith, retention, limited))
                  (ground (arith, grown, size, near, since, retention)) inspects renames))
        | inr unwritten ↦
            let same : record_line bytes w line a ≡ ready = ground (arith, unwritten) in
            subst (IsKept a.retention) (sym same) (record {
              retained = retention;
              bounded = record {
                near = ground (arith, size, near, since, retention);
                fresh = ground (arith, fresh, since, retention);
              };
            })
      ]

  -- From a log with a limit that keeps these bounds, and while its size can be read and it can be
  -- renamed, the live log always holds less than its limit and 64 KiB, however many lines are
  -- recorded, whatever their lengths and whatever else fails.
  pub record_all_bound :
      (entries : List (FileAnswers × String)) (a : AuditLog)
      → 0 < a.retention.max_bytes
      → IsBounded a
      → All (λ e. (e.0.inspects ≡ true) × (e.0.renames ≡ true)) entries
      → file_size bytes (record_all bytes entries a).live < a.retention.max_bytes + 65_536
  unfolding record_all
  record_all_bound [] a limited b working = let near = b.near in let fresh = b.fresh in omega arith
  record_all_bound ((w, line) ∷ entries) a limited b ((inspects, renames), working) =
      let kept = record_line-IsKept w line a limited inspects renames b in
      let same = kept.retained in
      let rest =
        record_all_bound entries (record_line bytes w line a) (ground (arith, same, limited))
          kept.bounded working in
      ground (arith, same, rest)
