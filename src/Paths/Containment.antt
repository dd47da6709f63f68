-- ===== src/Paths/Containment.antt =====
-- paths.ts: a path that the policy accepts lies in the root that it names.
use vcv_rack_mcp.Prelude.{
  ℕ, ◌≡◌, ◌≢◌, refl, ◌⊎◌, inl, inr, ◌↔◌, String, Bool, true, false, List, [], ◌∷◌, ◌++◌, Option,
  none, some, str_eq, eq_iff, ◌==◌, ◌||◌, any, is_some, Bool-cases, Option-cases, arith, ap,
}
use vcv_rack_mcp.Errors.{Result, ok, Result-cases}
use vcv_rack_mcp.Paths.{FileSystem, FileStatus, codes, starts_with, ends_with, is_url}
use vcv_rack_mcp.Paths.Canonical.{
  IsCanonical, canonical_allowing_missing, canonical_allowing_missing-IsCanonical, max_link_hops,
}
use vcv_rack_mcp.Paths.Policy.{
  PatchRoot, patches, checkpoints, PatchDirectories, ResolvedPath, canonical_dir, normal,
  with_separator, within, is_regular, root_of, check_request, finished, check_target,
  resolve_patch_path,
}

starts_with_iff :
    (prefix s : List ℕ) → (starts_with prefix s ≡ true) ↔ ((rest : List ℕ) × (s ≡ prefix ++ rest))
unfolding starts_with
starts_with_iff [] s = (λ e. (s, refl), λ h. refl)
starts_with_iff (p ∷ ps) [] = (λ e. absurd (cc), λ h. absurd (cc (h.1)))
starts_with_iff (p ∷ ps) (c ∷ s) =
    let (to, from) = starts_with_iff ps s in
    (
      λ e.
          let tail : starts_with ps s ≡ true = ground (arith, e) in
          let (rest, same) = to tail in (rest, ground (arith, e, same)),
      λ h.
          let (rest, same) = h in let tail = from (rest, (cc (same))) in ground (arith, tail, same),
    )

module _ (fs : FileSystem) where
  -- The directory itself, or a path that goes on after the directory and a separator; on Windows
  -- whatever the case of the letters.
  abbrev pub Inside : String → String → Type 0
  Inside root target =
      (normal fs target ≡ normal fs root)
      ⊎ ((rest : List ℕ) × (codes (normal fs target)
            ≡ codes (normal fs (with_separator fs root)) ++ rest))

  pub within-Inside_iff :
      (root target : String) → (within fs root target ≡ true) ↔ Inside root target
  unfolding within
  within-Inside_iff root target =
      let (to, from) =
        starts_with_iff (codes (normal fs (with_separator fs root))) (codes (normal fs target)) in
      elim (Bool-cases (str_eq (normal fs target) (normal fs root))) [
        | inl same ↦ (
          λ e. inl (ground (arith, same, eq_iff (normal fs target) (normal fs root))),
          λ h. rw same refl,
        )
        | inr other ↦ (
          λ e. inr (to (ground (arith, other, e))),
          λ h. elim h [
            | inl equal ↦
                absurd (ground (arith, other, equal, eq_iff (normal fs target) (normal fs root)))
            | inr longer ↦ ground (arith, from longer, other)
          ],
        )
      ]

  abbrev pub directory_of : PatchDirectories → PatchRoot → String
  directory_of config patches = config.patches_dir
  directory_of config checkpoints = config.checkpoints_dir

  root_of-Inside :
      (patches_root checkpoints_root c : String) (root : PatchRoot)
      → root_of fs patches_root checkpoints_root c ≡ ok root
      → ((root ≡ patches) × Inside patches_root c)
        ⊎ ((root ≡ checkpoints) × Inside checkpoints_root c)
  unfolding root_of
  root_of-Inside patches_root checkpoints_root c root e =
      elim (Bool-cases (within fs patches_root c)) [
        | inl first ↦ inl (ground (arith, first, e), (within-Inside_iff patches_root c).0 first)
        | inr no_patch ↦ elim (Bool-cases (within fs checkpoints_root c)) [
          | inl second ↦
              inr (
                ground (arith, no_patch, second, e),
                (within-Inside_iff checkpoints_root c).0 second,
              )
          | inr outside ↦ absurd (ground (arith, no_patch, outside, e))
        ]
      ]

  -- What an accepted request is.
  pub record IsAllowed (config : PatchDirectories) (requested : String) (must_exist : Bool)
      (r : ResolvedPath) : Type 0 where
    pub local : is_url requested ≡ false
    pub named : ends_with (codes ".vcv") (codes (fs.lower_case requested)) ≡ true
    pub whole : any (λ c. c == 0) (codes requested) ≡ false
    pub canonical : IsCanonical fs r.absolute
    pub contained :
        (root : String) × (canonical_dir fs (directory_of config r.root) ≡ ok root)
        × Inside root r.absolute
    pub regular : (s : FileStatus) → fs.status r.absolute ≡ some s → s.is_file ≡ true
    pub there : r.exists ≡ is_some (fs.status r.absolute)
    pub reachable :
        (is_some (fs.status r.absolute) || is_some (fs.status (fs.parent r.absolute))) ≡ true
    pub loadable :
        must_exist ≡ true
        → (s : FileStatus) × (fs.status r.absolute ≡ some s) × (s.is_file ≡ true) × (s.size ≢ 0)

  -- The text and the file of an accepted request, from the results of the checks.
  check_request-ok :
      (requested : String)
      → check_request fs requested ≡ ok tt
      → (is_url requested ≡ false)
        × (any (λ c. c == 0) (codes requested) ≡ false)
        × (ends_with (codes ".vcv") (codes (fs.lower_case requested)) ≡ true)
  unfolding check_request
  check_request-ok requested e = ground (arith, e)

  check_target-ok :
      (root : PatchRoot) (must_exist : Bool) (c : String) (r : ResolvedPath)
      → check_target fs root must_exist c ≡ ok r
      → (r ≡ record { absolute = c; root = root; exists = is_some (fs.status c) })
        × ((is_some (fs.status c) || is_some (fs.status (fs.parent c))) ≡ true)
        × (must_exist ≡ true → (s : FileStatus) × (fs.status c ≡ some s) × (s.size ≢ 0))
  unfolding check_target
  check_target-ok root must_exist c r e = elim (Option-cases (fs.status c)) [
    | inl gone ↦ (
      ground (arith, gone, e),
      ground (arith, gone, e),
      λ must. absurd (ground (arith, gone, must, e)),
    )
    | inr (s, there) ↦ (
      ground (arith, there, e),
      ground (arith, there),
      λ must. (s, there, λ none_in. ground (arith, must, there, e, none_in)),
    )
  ]

  -- The results of the checks of an accepted request, one after another.
  record Stages (config : PatchDirectories) (requested : String) (must_exist : Bool)
      (r : ResolvedPath) : Type 0 where
    patches_root : String
    checkpoints_root : String
    c : String
    root : PatchRoot
    asked : check_request fs requested ≡ ok tt
    first : canonical_dir fs config.patches_dir ≡ ok patches_root
    second : canonical_dir fs config.checkpoints_dir ≡ ok checkpoints_root
    made : canonical_allowing_missing fs max_link_hops (fs.resolve requested) ≡ some (ok c)
    regular : is_regular fs (fs.status c) ≡ true
    holds : root_of fs patches_root checkpoints_root c ≡ ok root
    checked : check_target fs root must_exist c ≡ ok r

  finished-ok : (o : Option (Result String)) (c : String) → finished fs o ≡ ok c → o ≡ some (ok c)
  finished-ok none c e = absurd (cc)
  finished-ok (some r) c e = ap some e

  resolve_patch_path-Stages :
      (config : PatchDirectories) (requested : String) (must_exist : Bool) (r : ResolvedPath)
      → resolve_patch_path fs config requested must_exist ≡ ok r
      → Stages config requested must_exist r
  unfolding resolve_patch_path
  resolve_patch_path-Stages config requested must_exist r e =
      let found = canonical_allowing_missing fs max_link_hops (fs.resolve requested) in
      elim (Result-cases (check_request fs requested)) [
        | inl (f, bad) ↦ absurd (ground (arith, bad, e))
        | inr (u, asked) ↦ elim (Result-cases (canonical_dir fs config.patches_dir)) [
          | inl (f, bad) ↦ absurd (ground (arith, asked, bad, e))
          | inr (patches_root, first) ↦
              elim (Result-cases (canonical_dir fs config.checkpoints_dir)) [
                | inl (f, bad) ↦ absurd (ground (arith, asked, first, bad, e))
                | inr (checkpoints_root, second) ↦ elim (Result-cases (finished fs found)) [
                  | inl (f, bad) ↦ absurd (ground (arith, asked, first, second, bad, e))
                  | inr (c, made) ↦ elim (Bool-cases (is_regular fs (fs.status c))) [
                    | inr odd ↦ absurd (ground (arith, asked, first, second, made, odd, e))
                    | inl regular ↦
                        elim (Result-cases (root_of fs patches_root checkpoints_root c)) [
                          | inl (f, bad) ↦
                              absurd (ground (arith, asked, first, second, made, regular, bad, e))
                          | inr (root, holds) ↦ record {
                            patches_root = patches_root;
                            checkpoints_root = checkpoints_root;
                            c = c;
                            root = root;
                            asked = asked;
                            first = first;
                            second = second;
                            made = finished-ok found c made;
                            regular = regular;
                            holds = holds;
                            checked = ground (arith, asked, first, second, made, regular, holds, e);
                          }
                        ]
                  ]
                ]
              ]
        ]
      ]

  -- A path that the policy accepts comes from a local `.vcv` request without a NUL, is canonical, so
  -- that no link leads away from it, and lies inside the directory of the root that it names. It is
  -- a regular file if it exists, and otherwise its parent exists; where it must exist, it is a
  -- regular file that is not empty.
  pub resolve_patch_path-IsAllowed :
      (config : PatchDirectories) (requested : String) (must_exist : Bool) (r : ResolvedPath)
      → resolve_patch_path fs config requested must_exist ≡ ok r
      → IsAllowed config requested must_exist r
  resolve_patch_path-IsAllowed config requested must_exist r e =
      let st = resolve_patch_path-Stages config requested must_exist r e in
      let (local, whole, named) = check_request-ok requested st.asked in
      let (same, reachable, loadable) = check_target-ok st.root must_exist st.c r st.checked in
      rw same (record {
        local = local;
        named = named;
        whole = whole;
        canonical =
            canonical_allowing_missing-IsCanonical fs max_link_hops (fs.resolve requested) st.c
              st.made;
        contained =
            elim (root_of-Inside st.patches_root st.checkpoints_root st.c st.root st.holds) [
              | inl (is, inside) ↦ rw is (st.patches_root, st.first, inside)
              | inr (is, inside) ↦ rw is (st.checkpoints_root, st.second, inside)
            ];
        regular = λ s known. ground (arith, known, st.regular);
        there = refl;
        reachable = reachable;
        loadable = λ must.
            let (s, known, filled) = loadable must in
            (s, known, ground (arith, known, st.regular), filled);
      })
