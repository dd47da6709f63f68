-- ===== src/Paths/Reservation.antt =====
-- paths.ts: a reservation takes a name that nobody has, and no other file changes.
use vcv_rack_mcp.Prelude.{
  ℕ, zero, suc, ◌+◌, ◌≤◌, ◌<◌, ◌≡◌, ◌≢◌, refl, ◌⊎◌, inl, inr, String, Bool, Option, true, false,
  none, some, eq_iff, ◌==◌, Bool-cases, Option-cases, arith, lookup, insert, lookup-insert,
  lookup-insert_self, subst, sym,
}
use vcv_rack_mcp.Errors.{Result, ok, throw, retryable, internal, other}
use vcv_rack_mcp.Paths.{FileSystem, real}
use vcv_rack_mcp.Paths.Canonical.{RealPath-cases}
use vcv_rack_mcp.Paths.Policy.{canonical_dir}
use vcv_rack_mcp.Paths.Checkpoints.{
  candidate, checkpoint_stem, checkpoint_names, Directory, try_names, reserve_checkpoint_path,
  max_checkpoint_attempts,
}

-- The name was free, is now an empty file, and every other file is as before.
pub record IsReserved (path : String) (before after : Directory) : Type 0 where
  pub was_free : lookup path before.files ≡ none
  pub now_empty : lookup path after.files ≡ some 0
  pub others : (p : String) → path ≢ p → lookup p after.files ≡ lookup p before.files

abbrev Tried : (ℕ → String) → (n left : ℕ) → Directory → Directory × Result String → Type 0
Tried name n left d (d', result) =
    ((k : ℕ) × (n ≤ k)
      × (k < n + left)
      × (result ≡ ok (name k))
      × IsReserved (name k) d d'
      × (d.writable ≡ true))
    ⊎ ((d' ≡ d)
        × (result ≡ throw (retryable internal))
        × ((d.writable ≡ false)
            ⊎ ((k : ℕ)
                → n ≤ k
                → k < n + left
                → (size : ℕ) × (lookup (name k) d.files ≡ some size))))

try_names_cases :
    (name : ℕ → String) (n left : ℕ) (d : Directory) → Tried name n left d (try_names name n left d)
unfolding try_names
try_names_cases name n zero d = inr (refl, refl, inr (λ k low high. absurd (omega arith)))
try_names_cases name n (suc left) d = elim (Option-cases (lookup (name n) d.files)) [
  | inl free ↦ elim (Bool-cases d.writable) [
    | inr sealed ↦
        subst (Tried name n (suc left) d) (sym (refused free sealed)) (inr (refl, refl, inl sealed))
    | inl open_ ↦ subst (Tried name n (suc left) d) (sym (made free open_)) (
        inl (
          n,
          omega arith,
          omega arith,
          refl,
          record {
            was_free = free;
            now_empty = lookup-insert_self (name n) 0 d.files;
            others = λ p other.
                ground (arith, lookup-insert (name n) p 0 d.files, eq_iff (name n) p, other);
          },
          open_,
        ))
  ]
  | inr (size, taken) ↦
      subst (Tried name n (suc left) d) (sym (skipped size taken))
        (elim (try_names_cases name (suc n) left d) [
          | inl (k, low, high, given, reserved, open_) ↦
              inl (k, omega arith, omega arith, given, reserved, open_)
          | inr (same, failed, inl sealed) ↦ inr (same, failed, inl sealed)
          | inr (same, failed, inr full) ↦ inr (
            same,
            failed,
            inr (λ k low high. elim (Bool-cases (k == n)) [
              | inl here ↦ let at : k ≡ n = ground (arith, here) in rw at (size, taken)
              | inr later ↦ full k (ground (arith, later)) (omega arith)
            ]),
          )
        ])
]
  where
    refused :
        lookup (name n) d.files ≡ none
        → d.writable ≡ false
        → try_names name n (suc left) d ≡ (d, throw (retryable internal))
    refused free sealed = ground (arith, free, sealed)

    made :
        lookup (name n) d.files ≡ none
        → d.writable ≡ true
        → try_names name n (suc left) d
          ≡ (record d { files = insert (name n) 0 d.files }, ok (name n))
    made free open_ = ground (arith, free, open_)

    skipped :
        (size : ℕ)
        → lookup (name n) d.files ≡ some size
        → try_names name n (suc left) d ≡ try_names name (suc n) left d
    skipped size taken = rw (taken, try_names) refl

pub reserve_checkpoint_path-ok :
    (name : ℕ → String) (d : Directory) → Tried name 1 100 d (reserve_checkpoint_path (ok name) d)
unfolding reserve_checkpoint_path
reserve_checkpoint_path-ok name d = try_names_cases name 1 max_checkpoint_attempts d

module _ (fs : FileSystem) (made : Bool) (dir : String) (join : String → String → String)
    (decimal : ℕ → String) (stamp : String) (label : Option String) where
  checkpoint_names_cases :
      let names = checkpoint_names fs made dir join decimal stamp label in
      ((made ≡ true)
        × ((root : String) × (fs.realpath dir ≡ real root)
            × (names ≡ ok (candidate decimal (checkpoint_stem join root stamp label)))))
      ⊎ (((made ≡ false) ⊎ ((root : String) → fs.realpath dir ≢ real root)) × (names ≡ throw other))
  unfolding checkpoint_names canonical_dir
  checkpoint_names_cases = elim (Bool-cases made) [
    | inr unmade ↦ inr (inl unmade, rw unmade refl)
    | inl there ↦ elim (RealPath-cases fs (fs.realpath dir)) [
      | inr (inr (root, is)) ↦ inl (there, (root, is, rw there (rw (is, checkpoint_names) refl)))
      | inr (inl gone) ↦
          inr
            (inr (λ root is. ground (arith, gone, is)), rw there (rw (gone, checkpoint_names) refl))
      | inl loop_ ↦
          inr (
            inr (λ root is. ground (arith, loop_, is)),
            rw there (rw (loop_, checkpoint_names) refl),
          )
    ]
  ]

  -- A reservation succeeds exactly if it can: with one of the hundred names in the canonical
  -- checkpoints directory, which was free and is now an empty file, every other file being as before;
  -- or it throws the retryable INTERNAL and has changed nothing, since the directory is not writable
  -- or all the names are taken; or it throws an error that is none of the program's own, and has
  -- changed nothing, since the directory cannot be made or has no canonical path.
  pub reserve_checkpoint_path_cases :
      (d : Directory)
      → let names = checkpoint_names fs made dir join decimal stamp label in
        let (d', result) = reserve_checkpoint_path names d in
        ((made ≡ true)
          × ((root : String) × (fs.realpath dir ≡ real root)
              × (let name = candidate decimal (checkpoint_stem join root stamp label) in
                  ((k : ℕ) × (1 ≤ k)
                    × (k < 1 + 100)
                    × (result ≡ ok (name k))
                    × IsReserved (name k) d d'
                    × (d.writable ≡ true))
                  ⊎ ((d' ≡ d)
                      × (result ≡ throw (retryable internal))
                      × ((d.writable ≡ false)
                          ⊎ ((k : ℕ)
                              → 1 ≤ k
                              → k < 1 + 100
                              → (size : ℕ) × (lookup (name k) d.files ≡ some size)))))))
        ⊎ (((made ≡ false) ⊎ ((root : String) → fs.realpath dir ≢ real root))
            × (d' ≡ d)
            × (result ≡ throw other))
  unfolding reserve_checkpoint_path
  reserve_checkpoint_path_cases d = elim checkpoint_names_cases [
    | inl (there, (root, is, named)) ↦
        rw named (inl (there, (root, is, try_names_cases _ 1 max_checkpoint_attempts d)))
    | inr (why, failed) ↦ rw failed (inr (why, refl, refl))
  ]
