-- ===== src/Catalog/Pages.antt =====
-- resources.ts: a scan follows the cursors, and says whether it came to the end.
use vcv_rack_mcp.Prelude.{
  ℕ, zero, suc, ◌≤◌, ◌≡◌, refl, ◌⊎◌, inl, inr, String, true, false, List, [], ◌++◌, Option, none,
  some, arith, Option-cases, sym, subst, ◌∙◌,
}
use mathlib.Core.List.{append_assoc}
use vcv_rack_mcp.Errors.{Thrown, Result, ok, throw, Result-cases}
use vcv_rack_mcp.Recipes.{InstalledModel}
use vcv_rack_mcp.Catalog.{ModelsPage, CatalogScan, live_cursor, scan_pages, scan_installed_models}

-- `n` pages, each asked for with the cursor of the one before, list these models; `next` is the
-- cursor after them, and none but the last page may have ended the catalog.
pub data IsFollowed (request : Option String → Result ModelsPage)
    : (cursor : Option String)
      → (n : ℕ) → (models : List InstalledModel) → (next : Option String) → Type 0 where
  last :
      {cursor : Option String} (page : ModelsPage)
      → request cursor ≡ ok page
      → IsFollowed request cursor 1 page.models page.next_cursor
  more :
      {cursor next : Option String} {n : ℕ} {models : List InstalledModel} (page : ModelsPage)
      (c : String)
      → request cursor ≡ ok page
      → live_cursor page.next_cursor ≡ some c
      → IsFollowed request page.next_cursor n models next
      → IsFollowed request cursor (suc n) (page.models ++ models) next

abbrev Scanned :
    (Option String → Result ModelsPage)
    → ℕ
    → Option String
    → List InstalledModel
    → Result CatalogScan
    → Type 0
Scanned request left cursor models result =
    ((e : Thrown) × (result ≡ throw e))
    ⊎ ((scan : CatalogScan) × (n : ℕ) × (found : List InstalledModel) × (next : Option String)
        × (result ≡ ok scan)
        × (n ≤ suc left)
        × (scan.models ≡ models ++ found)
        × IsFollowed request cursor n found next
        × (((scan.complete ≡ true) × (live_cursor next ≡ none))
            ⊎ ((scan.complete ≡ false)
                × (n ≡ suc left)
                × ((c : String) × (live_cursor next ≡ some c)))))

module _ (request : Option String → Result ModelsPage) where
  -- The first page, given what follows where its cursor is live.
  first_page :
      (left : ℕ) (cursor : Option String) (models : List InstalledModel) (total : Option ℕ)
      → ((page : ModelsPage) (c : String)
          → request cursor ≡ ok page
          → live_cursor page.next_cursor ≡ some c
          → Scanned request left cursor models (
              scan_pages request left page.next_cursor
                (models ++ page.models)
                (some page.total_models)))
      → Scanned request left cursor models (scan_pages request (suc left) cursor models total)
  unfolding scan_pages
  first_page left cursor models total rest = elim (Result-cases (request cursor)) [
    | inl (e, failed) ↦ inl (e, ground (arith, failed))
    | inr (page, good) ↦ elim (Option-cases (live_cursor page.next_cursor)) [
      | inl ended ↦ inr (
        record {
          models = models ++ page.models;
          complete = true;
          total_models = some page.total_models;
        },
        1,
        page.models,
        page.next_cursor,
        ground (arith, good, ended),
        omega arith,
        refl,
        last page good,
        inl (refl, ended),
      )
      | inr (c, live) ↦
          let same : scan_pages request (suc left) cursor models total
              ≡ scan_pages request left page.next_cursor (models ++ page.models)
                  (some page.total_models) =
            ground (arith, good, live) in
          subst (Scanned request left cursor models) (sym same) (rest page c good live)
    ]
  ]

  scan_pages_cases :
      (left : ℕ) (cursor : Option String) (models : List InstalledModel) (total : Option ℕ)
      → Scanned request left cursor models (scan_pages request (suc left) cursor models total)
  unfolding scan_pages
  scan_pages_cases zero cursor models total =
      first_page zero cursor models total (λ page c good live. inr (
        record {
          models = models ++ page.models;
          complete = false;
          total_models = some page.total_models;
        },
        1,
        page.models,
        page.next_cursor,
        refl,
        omega arith,
        refl,
        last page good,
        inr (refl, refl, (c, live)),
      ))
  scan_pages_cases (suc left) cursor models total =
      first_page (suc left) cursor models total (λ page c good live.
        elim (scan_pages_cases left page.next_cursor (models ++ page.models)
          (some page.total_models)) [
            | inl (e, failed) ↦ inl (e, failed)
            | inr (scan, n, found, next, given, few, listed, followed, inl ended) ↦ inr (
              scan,
              suc n,
              page.models ++ found,
              next,
              given,
              omega arith,
              listed ∙ append_assoc models page.models found,
              more page c good live followed,
              inl ended,
            )
            | inr (scan, n, found, next, given, few, listed, followed, inr (cut, full, open_)) ↦
                inr (
                  scan,
                  suc n,
                  page.models ++ found,
                  next,
                  given,
                  omega arith,
                  listed ∙ append_assoc models page.models found,
                  more page c good live followed,
                  inr (cut, omega arith, open_),
                )
          ])

-- A scan either throws, or lists exactly the models of one to four pages, each asked for with the
-- cursor of the page before, in their order. It says that it is complete exactly if the last page
-- had no cursor; where it does not, four pages were read and the last had a cursor.
pub scan_installed_models_cases :
    (request : Option String → Result ModelsPage)
    → let result = scan_installed_models request in
      ((e : Thrown) × (result ≡ throw e))
      ⊎ ((scan : CatalogScan) × (n : ℕ) × (next : Option String) × (result ≡ ok scan)
          × (n ≤ 4)
          × IsFollowed request none n scan.models next
          × (((scan.complete ≡ true) × (live_cursor next ≡ none))
              ⊎ ((scan.complete ≡ false) × (n ≡ 4) × ((c : String) × (live_cursor next ≡ some c)))))
unfolding scan_installed_models
scan_installed_models_cases request = elim (scan_pages_cases request 3 none [] none) [
  | inl failed ↦ inl failed
  | inr (scan, n, found, next, given, few, listed, followed, end) ↦
      inr (scan, n, next, given, few, rw (listed) followed, end)
]
