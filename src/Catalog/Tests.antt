-- ===== src/Catalog/Tests.antt =====
-- A catalog of two pages, and one that never ends.
use vcv_rack_mcp.Prelude.{ℕ, ◌≤◌, ◌≡◌, refl, ◌⊎◌, String, true, false, [], ◌∷◌, Option, none, some}
use vcv_rack_mcp.Errors.{Thrown, Result, ok, throw}
use vcv_rack_mcp.Recipes.{InstalledModel}
use vcv_rack_mcp.Catalog.{ModelsPage, CatalogScan, live_cursor, scan_installed_models}
use vcv_rack_mcp.Catalog.Pages.{IsFollowed, scan_installed_models_cases}

abbrev model : String → InstalledModel
model slug = record { plugin_slug = "Fundamental"; model_slug = slug }

abbrev two_pages : Option String → Result ModelsPage
two_pages none = ok (record { models = model "VCO" ∷ []; total_models = 2; next_cursor = some "1" })
two_pages (some c) = ok (record { models = model "VCF" ∷ []; total_models = 2; next_cursor = none })

abbrev endless : Option String → Result ModelsPage
endless c = ok (record { models = model "VCO" ∷ []; total_models = 9; next_cursor = some "1" })

both_pages :
    scan_installed_models two_pages
    ≡ ok
        (record { models = model "VCO" ∷ model "VCF" ∷ []; complete = true; total_models = some 2 })
unfolding scan_installed_models vcv_rack_mcp.Catalog.scan_pages
both_pages = refl

four_pages :
    scan_installed_models endless
    ≡ ok (record {
      models = model "VCO" ∷ model "VCO" ∷ model "VCO" ∷ model "VCO" ∷ [];
      complete = false;
      total_models = some 9;
    })
unfolding scan_installed_models vcv_rack_mcp.Catalog.scan_pages
four_pages = refl

scan_installed_models_cases_example :
    ((e : Thrown) × (scan_installed_models two_pages ≡ throw e))
    ⊎ ((scan : CatalogScan) × (n : ℕ) × (next : Option String) × (scan_installed_models two_pages
          ≡ ok scan)
        × (n ≤ 4)
        × IsFollowed two_pages none n scan.models next
        × (((scan.complete ≡ true) × (live_cursor next ≡ none))
            ⊎ ((scan.complete ≡ false) × (n ≡ 4) × ((c : String) × (live_cursor next ≡ some c)))))
scan_installed_models_cases_example = scan_installed_models_cases two_pages
