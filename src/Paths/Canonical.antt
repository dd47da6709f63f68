-- ===== src/Paths/Canonical.antt =====
-- paths.ts: the canonical form of a path that need not exist, and that computing it ends.
use vcv_rack_mcp.Prelude.{
  ℕ, zero, suc, ◌<◌, ◌≡◌, refl, ◌≢◌, ◌⊎◌, inl, inr, String, Option, none, some, str_eq, eq_iff,
  if◌then◌else◌, Bool-cases, Option-cases, arith, subst,
}
use vcv_rack_mcp.Errors.{Result, ok, throw, tool_error, path_not_allowed, Result-cases}
use vcv_rack_mcp.Paths.{FileSystem, RealPath, real, no_entry, unresolvable}

abbrev pub not_allowed {ℓ} : {A : Type ℓ} → Result A
not_allowed = throw (tool_error path_not_allowed)

abbrev pub max_link_hops : ℕ
max_link_hops = 32

module _ (fs : FileSystem) where
  -- Where the deepest missing part is a link, `follow` goes on with its target.
  unfoldable pub through_link :
      (follow : String → Option (Result String)) → String → String → Option (Result String)
  through_link follow canonical_parent p =
      let child = fs.join canonical_parent (fs.basename p) in
      elim (fs.read_link child) [
        | none ↦ some (ok child)
        | some target ↦ follow (fs.join canonical_parent target)
      ]

  -- The recursion up the parents, with fuel; `none` is fuel that ran out.
  unfoldable pub up_parents :
      (follow : String → Option (Result String)) → ℕ → String → Option (Result String)
  up_parents follow zero p = none
  up_parents follow (suc fuel) p =
      let above = up_parents follow fuel (fs.parent p) in
      elim (fs.realpath p) [
        | real canonical ↦ some (ok canonical)
        | unresolvable ↦ some not_allowed
        | no_entry ↦ if str_eq (fs.parent p) p then some not_allowed else elim above [
          | none ↦ none
          | some (throw e) ↦ some (throw e)
          | some (ok canonical_parent) ↦ through_link follow canonical_parent p
        ]
      ]

  -- `canonicalAllowingMissing(p, hops)`, by the hops that are left.
  unfoldable pub canonical_allowing_missing : ℕ → String → Option (Result String)
  canonical_allowing_missing zero p = up_parents (λ target. some not_allowed) (suc (fs.depth p)) p
  canonical_allowing_missing (suc left) p =
      up_parents (canonical_allowing_missing left) (suc (fs.depth p)) p

  pub RealPath-cases :
      (r : RealPath) → (r ≡ unresolvable) ⊎ (r ≡ no_entry) ⊎ ((p : String) × (r ≡ real p))
  RealPath-cases (real p) = inr (inr (p, refl))
  RealPath-cases no_entry = inr (inl refl)
  RealPath-cases unresolvable = inl refl

  abbrev Ends : Option (Result String) → Type 0
  Ends o = (r : Result String) × (o ≡ some r)

  through_link-Ends :
      (follow : String → Option (Result String)) (canonical_parent p : String)
      → ((target : String) → Ends (follow target))
      → Ends (through_link follow canonical_parent p)
  unfolding through_link
  through_link-Ends follow canonical_parent p ends =
      let child = fs.join canonical_parent (fs.basename p) in
      elim (Option-cases (fs.read_link child)) [
        | inl plain ↦ (ok child, rw (plain, through_link) refl)
        | inr (target, link) ↦
            let (r, e) = ends (fs.join canonical_parent target) in (r, rw (link, through_link) e)
      ]

  up_parents-Ends :
      (follow : String → Option (Result String)) (fuel : ℕ) (p : String)
      → ((target : String) → Ends (follow target))
      → fs.depth p < fuel
      → Ends (up_parents follow fuel p)
  unfolding up_parents
  up_parents-Ends follow zero p ends enough = absurd (omega arith)
  up_parents-Ends follow (suc fuel) p ends enough = elim (RealPath-cases (fs.realpath p)) [
    | inl bad ↦ (not_allowed, rw (bad, up_parents) refl)
    | inr (inr (canonical, found)) ↦ (ok canonical, rw (found, up_parents) refl)
    | inr (inl missing) ↦ elim (Bool-cases (str_eq (fs.parent p) p)) [
      | inl top ↦ (not_allowed, rw (missing, up_parents) (rw top refl))
      | inr below ↦
          let higher : fs.parent p ≢ p = λ e. ground (arith, below, eq_iff (fs.parent p) p, e) in
          let (above, e) =
            up_parents-Ends follow fuel (fs.parent p) ends
              (omega (arith, fs.parent_shorter p higher)) in
          rw (missing, up_parents)
            (rw below (
              rw (e, up_parents)
                (elim (Result-cases above) [
                  | inl (t, failed) ↦ (throw t, rw failed refl)
                  | inr (canonical_parent, good) ↦
                      rw good (through_link-Ends follow canonical_parent p ends)
                ])))
    ]
  ]

  -- Resolving a path ends, whatever links the file system has, loops included: with some number of
  -- hops left it gives a canonical path or throws, and never runs out of the fuel that is the length
  -- of the way up from the path.
  pub canonical_allowing_missing-Ends :
      (left : ℕ) (p : String) → (r : Result String) × (canonical_allowing_missing left p ≡ some r)
  unfolding canonical_allowing_missing
  canonical_allowing_missing-Ends zero p =
      up_parents-Ends (λ target. some not_allowed) (suc (fs.depth p)) p
        (λ target. (not_allowed, refl)) (omega arith)
  canonical_allowing_missing-Ends (suc left) p =
      up_parents-Ends (canonical_allowing_missing left) (suc (fs.depth p)) p
        (λ target. canonical_allowing_missing-Ends left target) (omega arith)

-- No part of the path is a link any more: it is what `realpath` gives, or it is a missing name, with
-- no link under it, in such a directory.
pub data IsCanonical (fs : FileSystem) : String → Type 0 where
  existing : {c : String} (q : String) → fs.realpath q ≡ real c → IsCanonical fs c
  missing :
      {c : String} (d b : String)
      → IsCanonical fs d
      → c ≡ fs.join d b
      → fs.read_link c ≡ none
      → IsCanonical fs c

module _ (fs : FileSystem) where
  abbrev AllCanonical : (String → Option (Result String)) → Type 0
  AllCanonical follow = (t c : String) → follow t ≡ some (ok c) → IsCanonical fs c

  through_link-IsCanonical :
      (follow : String → Option (Result String)) (d p c : String)
      → AllCanonical follow
      → IsCanonical fs d
      → through_link fs follow d p ≡ some (ok c)
      → IsCanonical fs c
  unfolding through_link
  through_link-IsCanonical follow d p c all above e =
      let child = fs.join d (fs.basename p) in
      elim (Option-cases (fs.read_link child)) [
        | inl plain ↦
            let same : child ≡ c = ground (arith, plain, e) in
            subst (IsCanonical fs) same (IsCanonical.missing d (fs.basename p) above refl plain)
        | inr (target, link) ↦ all (fs.join d target) c (rw (link, through_link) at e)
      ]

  up_parents-IsCanonical :
      (follow : String → Option (Result String)) (fuel : ℕ) (p c : String)
      → AllCanonical follow
      → up_parents fs follow fuel p ≡ some (ok c)
      → IsCanonical fs c
  unfolding up_parents
  up_parents-IsCanonical follow zero p c all e = absurd (ground (arith, e))
  up_parents-IsCanonical follow (suc fuel) p c all e = elim (RealPath-cases fs (fs.realpath p)) [
    | inl bad ↦ absurd (ground (arith, bad, e))
    | inr (inr (canonical, found)) ↦
        let same : canonical ≡ c = ground (arith, found, e) in
        IsCanonical.existing p (subst (λ x. fs.realpath p ≡ real x) same found)
    | inr (inl gone) ↦ elim (Bool-cases (str_eq (fs.parent p) p)) [
      | inl top ↦ absurd (ground (arith, gone, top, e))
      | inr below ↦ elim (Option-cases (up_parents fs follow fuel (fs.parent p))) [
        | inl out ↦ absurd (ground (arith, gone, below, out, e))
        | inr (r, above) ↦ elim (Result-cases r) [
          | inl (t, failed) ↦ absurd (ground (arith, gone, below, above, failed, e))
          | inr (d, good) ↦
              let from : up_parents fs follow fuel (fs.parent p) ≡ some (ok d) =
                ground (arith, above, good) in
              through_link-IsCanonical follow d p c all
                (up_parents-IsCanonical follow fuel (fs.parent p) d all from)
                (ground (arith, gone, below, from, e))
        ]
      ]
    ]
  ]

  pub canonical_allowing_missing-IsCanonical :
      (left : ℕ) (p c : String)
      → canonical_allowing_missing fs left p ≡ some (ok c)
      → IsCanonical fs c
  unfolding canonical_allowing_missing
  canonical_allowing_missing-IsCanonical zero p c e =
      up_parents-IsCanonical (λ target. some not_allowed) (suc (fs.depth p)) p c
        (λ t c' e'. absurd (ground (arith, e'))) e
  canonical_allowing_missing-IsCanonical (suc left) p c e =
      up_parents-IsCanonical (canonical_allowing_missing fs left) (suc (fs.depth p)) p c
        (λ t c' e'. canonical_allowing_missing-IsCanonical left t c' e') e
