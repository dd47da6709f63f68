-- ===== src/Catalog.antt =====
-- apps/mcp-server/src/resources.ts, `scanInstalledModels`: the pages of the bridge's catalog.
-- The bridge's answer to a request for a page is a function of the cursor sent.
pub mod Pages
mod Tests
use vcv_rack_mcp.Prelude.{
  ℕ, zero, suc, String, Bool, true, false, List, [], ◌++◌, Option, none, some, str_eq,
  if◌then◌else◌,
}
use vcv_rack_mcp.Errors.{Result, ok, throw}
use vcv_rack_mcp.Recipes.{InstalledModel}

pub record ModelsPage : Type 0 where
  pub models : List InstalledModel
  pub total_models : ℕ
  pub next_cursor : Option String

pub record CatalogScan : Type 0 where
  pub models : List InstalledModel
  pub complete : Bool
  pub total_models : Option ℕ

abbrev pub max_catalog_pages : ℕ
max_catalog_pages = 4

-- An empty cursor is none.
abbrev pub live_cursor : Option String → Option String
live_cursor none = none
live_cursor (some cursor) = if str_eq cursor "" then none else some cursor

-- The loop, with `left` pages to go. The bridge's reply depends on the cursor alone. Every page carries a total.
unfoldable pub scan_pages :
    (request : Option String → Result ModelsPage)
    → (left : ℕ) → Option String
    → List InstalledModel
    → Option ℕ
    → Result CatalogScan
scan_pages request zero cursor models total =
    ok (record { models = models; complete = false; total_models = total })
scan_pages request (suc left) cursor models total = elim (request cursor) [
  | throw e ↦ throw e
  | ok page ↦ elim (live_cursor page.next_cursor) [
    | none ↦ ok (record {
      models = models ++ page.models;
      complete = true;
      total_models = some page.total_models;
    })
    | some next ↦
        scan_pages request left page.next_cursor (models ++ page.models) (some page.total_models)
  ]
]

unfoldable pub scan_installed_models : (Option String → Result ModelsPage) → Result CatalogScan
scan_installed_models request = scan_pages request max_catalog_pages none [] none
