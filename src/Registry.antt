-- ===== src/Registry.antt =====
-- handler.go and connect.go: the functions of a handler, registered and found by their slugs.
-- slug.Make and the order in which the runtime goes through a map are parameters.
pub mod Latest
mod Tests
use inngestgo.Prelude.{
  String, Option, none, some, List, [], ◌∷◌, map, Map, insert, str_eq, if◌then◌else◌,
}
use inngestgo.Funcs.{ServableFunc, slug}

module _ (slug_make : String → String) (app_name : String) where
  -- getServableFunctionBySlug
  unfoldable pub get_servable_function_by_slug : String → List ServableFunc → Option ServableFunc
  get_servable_function_by_slug s [] = none
  get_servable_function_by_slug s (f ∷ fs) =
      let rest = get_servable_function_by_slug s fs in
      if str_eq (slug slug_make f app_name) s then some f else rest

  -- `slugs[f.Slug(h.appName)] = f` for each function.
  unfoldable pub add_slugs : List ServableFunc → Map ServableFunc → Map ServableFunc
  add_slugs [] m = m
  add_slugs (f ∷ fs) m = add_slugs fs (insert (slug slug_make f app_name) f m)

  -- The new functions of the handler, from those it has and those that are registered.
  unfoldable pub register :
      (order : Map ServableFunc → Map ServableFunc)
      → List ServableFunc
      → List ServableFunc
      → List ServableFunc
  unfolding add_slugs
  register order funcs new = map (λ e. e.1) (order (add_slugs new (add_slugs funcs [])))
