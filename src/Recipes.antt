-- ===== src/Recipes.antt =====
-- packages/recipes/src/index.ts (with packages/schemas/src/recipes.ts): a recipe's roles are resolved
-- against the installed models, and its operation template is expanded.
-- The registry's documents are data; a thrown error is `none`.
pub mod Expansion
mod Tests
use vcv_rack_mcp.Prelude.{
  ℕ, String, Bool, true, false, List, [], ◌∷◌, map, Option, none, some, str_eq, ◌&&◌, any,
  if◌then◌else◌, lookup, insert,
}
use vcv_rack_mcp.Operations.{AddModule, PatchOperation, add_module}

pub record InstalledModel : Type 0 where
  pub plugin_slug : String
  pub model_slug : String

pub record RecipeRole : Type 0 where
  pub role : String
  pub description : String
  pub preferred : InstalledModel
  pub signal_roles : List String

pub record Recipe : Type 0 where
  pub id : String
  pub name : String
  pub description : String
  pub roles : List RecipeRole
  pub operations : List PatchOperation
  pub notes : List String

pub record UnresolvedRole : Type 0 where
  pub role : String
  pub description : String
  pub preferred : InstalledModel

pub record RecipeResolution : Type 0 where
  pub recipe_id : String
  pub resolved : Bool
  pub unresolved_roles : List UnresolvedRole
  pub assignments : List (String × InstalledModel)

abbrev pub role_plugin : String
role_plugin = "$role"

unfoldable pub installed_has : List InstalledModel → InstalledModel → Bool
installed_has installed m =
    any (λ x. str_eq x.plugin_slug m.plugin_slug && str_eq x.model_slug m.model_slug) installed

-- The loop over the roles, from the assignments and the unresolved roles so far.
unfoldable pub assign :
    List InstalledModel
    → List RecipeRole
    → List (String × InstalledModel)
    → List (String × InstalledModel)
assign installed [] done = done
assign installed (r ∷ rs) done =
    assign installed rs
      (if installed_has installed r.preferred then insert r.role r.preferred done else done)

unfoldable pub unresolved : List InstalledModel → List RecipeRole → List UnresolvedRole
unresolved installed [] = []
unresolved installed (r ∷ rs) =
    let rest = unresolved installed rs in
    if installed_has installed r.preferred
    then rest
    else record { role = r.role; description = r.description; preferred = r.preferred } ∷ rest

abbrev pub is_empty {ℓ} : {A : Type ℓ} → List A → Bool
is_empty [] = true
is_empty (_ ∷ _) = false

unfoldable pub resolve_recipe : Recipe → List InstalledModel → RecipeResolution
resolve_recipe recipe installed = record {
  recipe_id = recipe.id;
  resolved = is_empty (unresolved installed recipe.roles);
  unresolved_roles = unresolved installed recipe.roles;
  assignments = assign installed recipe.roles [];
}

-- `subst`
unfoldable pub substitute : List (String × InstalledModel) → String → String → Option InstalledModel
substitute assignments plugin model =
    if str_eq plugin role_plugin
    then lookup model assignments
    else some (record { plugin_slug = plugin; model_slug = model })

unfoldable pub expand_operation :
    List (String × InstalledModel) → PatchOperation → Option PatchOperation
expand_operation assignments (add_module a) =
    elim (substitute assignments a.plugin_slug a.model_slug) [
      | none ↦ none
      | some m ↦
          some (add_module (record a { plugin_slug = m.plugin_slug; model_slug = m.model_slug }))
    ]
expand_operation assignments op = some op

unfoldable pub expand_operations :
    List (String × InstalledModel) → List PatchOperation → Option (List PatchOperation)
expand_operations assignments [] = some []
expand_operations assignments (op ∷ ops) = elim (expand_operation assignments op) [
  | none ↦ none
  | some op' ↦ elim (expand_operations assignments ops) [
    | none ↦ none
    | some ops' ↦ some (op' ∷ ops')
  ]
]

unfoldable pub expand_recipe_operations : Recipe → RecipeResolution → Option (List PatchOperation)
expand_recipe_operations recipe resolution =
    if resolution.resolved then expand_operations resolution.assignments recipe.operations else none
