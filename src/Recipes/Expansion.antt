-- ===== src/Recipes/Expansion.antt =====
-- recipes/src/index.ts: a recipe is expanded into installed models, or not at all.
use vcv_rack_mcp.Prelude.{
  false, ◌≡◌, ◌≢◌, refl, ◌⊎◌, inl, inr, ◌↔◌, String, Bool, true, List, [], ◌∷◌, none, some, str_eq,
  eq_iff, any, lookup, insert, lookup-insert, All, arith, Bool-cases, subst,
}
use vcv_rack_mcp.Operations.{AddModule, PatchOperation, add_module}
use vcv_rack_mcp.Recipes.{
  Recipe, RecipeRole, InstalledModel, role_plugin, installed_has, assign, unresolved, is_empty,
  resolve_recipe, substitute, expand_operation, expand_operations, expand_recipe_operations,
}

abbrev pub is_role : List RecipeRole → String → Bool
is_role roles key = any (λ r. str_eq r.role key) roles

abbrev pub NamesRole : List RecipeRole → PatchOperation → Type 0
NamesRole roles (add_module a) = a.plugin_slug ≡ "$role" → is_role roles a.model_slug ≡ true
NamesRole roles _ = Unit

-- Every placeholder names a role of the recipe.
abbrev pub IsTemplate : Recipe → Type 0
IsTemplate recipe = All (NamesRole recipe.roles) recipe.operations

abbrev pub AllInstalled : List InstalledModel → List RecipeRole → Type 0
AllInstalled installed = All (λ r. installed_has installed r.preferred ≡ true)

-- Some role with this key prefers the model, and the model is installed.
pub Offers : List InstalledModel → List RecipeRole → String → InstalledModel → Type 0
Offers installed [] key m = ⊥
Offers installed (r ∷ rs) key m =
    ((r.role ≡ key) × (r.preferred ≡ m) × (installed_has installed m ≡ true))
    ⊎ Offers installed rs key m

-- An operation as expansion leaves it: only the slugs of a placeholder change, to those of an
-- installed model that the role prefers.
abbrev pub Fills : List InstalledModel → List RecipeRole → PatchOperation → PatchOperation → Type 0
Fills installed roles (add_module a) op =
    ((a.plugin_slug ≢ "$role") × (op ≡ add_module a))
    ⊎ ((a.plugin_slug ≡ "$role")
        × ((m : InstalledModel) × Offers installed roles a.model_slug m
            × (op
                ≡ add_module
                    (record a { plugin_slug = m.plugin_slug; model_slug = m.model_slug }))))
Fills installed roles op op' = op' ≡ op

abbrev pub AllFill :
    List InstalledModel → List RecipeRole → List PatchOperation → List PatchOperation → Type 0
AllFill installed roles [] [] = Unit
AllFill installed roles (op ∷ ops) (op' ∷ ops') =
    Fills installed roles op op' × AllFill installed roles ops ops'
AllFill installed roles _ _ = ⊥

unresolved-AllInstalled :
    (installed : List InstalledModel) (roles : List RecipeRole)
    → (is_empty (unresolved installed roles) ≡ true) ↔ AllInstalled installed roles
unfolding unresolved
unresolved-AllInstalled installed [] = (λ e. tt, λ h. refl)
unresolved-AllInstalled installed (r ∷ rs) =
    let (to, from) = unresolved-AllInstalled installed rs in
    elim (Bool-cases (installed_has installed r.preferred)) [
      | inl has ↦ rw has (λ e. (refl, to e), λ h. from h.1)
      | inr lacks ↦ rw lacks (λ e. absurd (ground (arith, e)), λ h. absurd (ground (arith, h.0)))
    ]

assign-Offers :
    (installed : List InstalledModel) (roles : List RecipeRole)
    (done : List (String × InstalledModel)) (key : String) (m : InstalledModel)
    → lookup key (assign installed roles done) ≡ some m
    → (lookup key done ≡ some m) ⊎ Offers installed roles key m
unfolding assign Offers
assign-Offers installed [] done key m found = inl found
assign-Offers installed (r ∷ rs) done key m found =
    elim (Bool-cases (installed_has installed r.preferred)) [
      | inr lacks ↦ elim (assign-Offers installed rs done key m (rw lacks at found)) [
        | inl before ↦ inl before
        | inr later ↦ inr (inr later)
      ]
      | inl has ↦
          elim (assign-Offers installed rs (insert r.role r.preferred done) key m
            (rw has at found)) [
              | inl before ↦ elim (Bool-cases (str_eq r.role key)) [
                | inl same ↦
                    let here : r.preferred ≡ m =
                      ground (arith, before, lookup-insert r.role key r.preferred done) in
                    inr (
                      inl (
                        ground (arith, eq_iff r.role key),
                        here,
                        subst (λ x. installed_has installed x ≡ true) here has,
                      ))
                | inr other ↦
                    inl (ground (arith, before, lookup-insert r.role key r.preferred done))
              ]
              | inr later ↦ inr (inr later)
            ]
    ]

assign-some :
    (installed : List InstalledModel) (roles : List RecipeRole)
    (done : List (String × InstalledModel)) (key : String)
    → AllInstalled installed roles
    → (is_role roles key ≡ true) ⊎ ((m : InstalledModel) × (lookup key done ≡ some m))
    → (m : InstalledModel) × (lookup key (assign installed roles done) ≡ some m)
unfolding assign
assign-some installed [] done key all (inl named) = absurd (ground arith)
assign-some installed [] done key all (inr (m, found)) = (m, found)
assign-some installed (r ∷ rs) done key (has, all) known =
    rw has (assign-some installed rs (insert r.role r.preferred done) key all (next known))
  where
    next :
        (is_role (r ∷ rs) key ≡ true) ⊎ ((m : InstalledModel) × (lookup key done ≡ some m))
        → (is_role rs key ≡ true)
          ⊎ ((m : InstalledModel) × (lookup key (insert r.role r.preferred done) ≡ some m))
    next (inl named) = elim (Bool-cases (str_eq r.role key)) [
      | inl same ↦ inr (r.preferred, ground (arith, lookup-insert r.role key r.preferred done))
      | inr other ↦ inl (ground (arith, named))
    ]
    next (inr (m, found)) = elim (Bool-cases (str_eq r.role key)) [
      | inl same ↦ inr (r.preferred, ground (arith, lookup-insert r.role key r.preferred done))
      | inr other ↦ inr (m, ground (arith, lookup-insert r.role key r.preferred done))
    ]

substitute_role :
    (done : List (String × InstalledModel)) (plugin key : String) (m : InstalledModel)
    → plugin ≡ "$role"
    → lookup key done ≡ some m
    → substitute done plugin key ≡ some m
unfolding substitute
substitute_role done plugin key m is found = ground (arith, eq_iff plugin "$role", found)

substitute_other :
    (done : List (String × InstalledModel)) (plugin key : String)
    → plugin ≢ "$role"
    → substitute done plugin key ≡ some (record { plugin_slug = plugin; model_slug = key })
unfolding substitute
substitute_other done plugin key other = ground (arith, eq_iff plugin "$role")

expand_added :
    (done : List (String × InstalledModel)) (a : AddModule) (m : InstalledModel)
    → substitute done a.plugin_slug a.model_slug ≡ some m
    → expand_operation done (add_module a)
      ≡ some (add_module (record a { plugin_slug = m.plugin_slug; model_slug = m.model_slug }))
unfolding expand_operation
expand_added done a m given = rw (given, expand_operation) refl

module _ (installed : List InstalledModel) (roles : List RecipeRole)
    (all : AllInstalled installed roles) where
  substituted :
      (key : String)
      → is_role roles key ≡ true
      → (m : InstalledModel) × (lookup key (assign installed roles []) ≡ some m)
        × Offers installed roles key m
  unfolding lookup
  substituted key named =
      let (m, found) = assign-some installed roles [] key all (inl named) in
      elim (assign-Offers installed roles [] key m found) [
        | inl before ↦ absurd (ground (arith, before))
        | inr offered ↦ (m, found, offered)
      ]

  expand_operation-Fills :
      (op : PatchOperation)
      → NamesRole roles op
      → (op' : PatchOperation) × (expand_operation (assign installed roles []) op ≡ some op')
        × Fills installed roles op op'
  unfolding expand_operation
  expand_operation-Fills (add_module a) named =
      elim (Bool-cases (str_eq a.plugin_slug role_plugin)) [
        | inl placeholder ↦
            let is : a.plugin_slug ≡ "$role" = ground (arith, eq_iff a.plugin_slug "$role") in
            let (m, found, offered) = substituted a.model_slug (named is) in
            (
              add_module (record a { plugin_slug = m.plugin_slug; model_slug = m.model_slug }),
              expand_added _ a m (substitute_role _ a.plugin_slug a.model_slug m is found),
              inr (is, (m, offered, refl)),
            )
        | inr concrete ↦
            let other : a.plugin_slug ≢ "$role" =
              λ is. ground (arith, eq_iff a.plugin_slug "$role", is) in
            (
              add_module a,
              expand_added _ a _ (substitute_other _ a.plugin_slug a.model_slug other),
              inl (other, refl),
            )
      ]
  expand_operation-Fills op named = (op, refl, refl)

  expand_operations-AllFill :
      (ops : List PatchOperation)
      → All (NamesRole roles) ops
      → (ops' : List PatchOperation) × (expand_operations (assign installed roles []) ops
          ≡ some ops')
        × AllFill installed roles ops ops'
  unfolding expand_operations
  expand_operations-AllFill [] named = ([], refl, tt)
  expand_operations-AllFill (op ∷ ops) (one, named) =
      let (op', expanded, fills) = expand_operation-Fills op one in
      let (ops', rest, fill) = expand_operations-AllFill ops named in
      (
        op' ∷ ops',
        rw (expanded, expand_operations) (rw (rest, expand_operations) refl),
        (fills, fill),
      )

-- For a recipe whose placeholders all name roles of its own: it resolves exactly when every preferred
-- model is installed. If it resolves, it expands into as many operations in the same order, in which
-- each placeholder has become an installed model that the role prefers and nothing else has changed;
-- if it does not, expansion throws.
pub expand_cases :
    (recipe : Recipe) (installed : List InstalledModel)
    → IsTemplate recipe
    → let resolution = resolve_recipe recipe installed in
      (AllInstalled installed recipe.roles
        × (resolution.resolved ≡ true)
        × ((ops : List PatchOperation) × (expand_recipe_operations recipe resolution ≡ some ops)
            × AllFill installed recipe.roles recipe.operations ops))
      ⊎ (¬ (AllInstalled installed recipe.roles)
          × (resolution.resolved ≡ false)
          × (expand_recipe_operations recipe resolution ≡ none))
unfolding resolve_recipe expand_recipe_operations
expand_cases recipe installed template =
    let (to, from) = unresolved-AllInstalled installed recipe.roles in
    elim (Bool-cases (is_empty (unresolved installed recipe.roles))) [
      | inl resolved ↦
          let (ops, expanded, fill) =
            expand_operations-AllFill installed recipe.roles (to resolved) recipe.operations
              template in
          inl (to resolved, resolved, (ops, rw resolved expanded, fill))
      | inr open_ ↦ inr (λ all. ground (arith, from all, open_), open_, rw open_ refl)
    ]
