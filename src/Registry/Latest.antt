-- ===== src/Registry/Latest.antt =====
-- Which function a slug finds after a registration.

use inngestgo.Prelude.{
  String, ◌≡◌, refl, ◌∙◌, ap, Option, none, some, List, [], ◌∷◌, map, arith, Map, lookup, insert,
  lookup-insert, str_eq, if◌then◌else◌, All,
}
use inngestgo.Funcs.{ServableFunc, slug}
use inngestgo.Registry.{get_servable_function_by_slug, add_slugs, register}

module _ (slug_make : String → String) (app_name : String) where
  -- Each entry's key is the slug of its function.
  abbrev pub IsKeyed : Map ServableFunc → Type 0
  IsKeyed m = All (λ e. slug slug_make e.1 app_name ≡ e.0) m

  -- The runtime goes through each entry of a map once.
  abbrev pub Visits : (Map ServableFunc → Map ServableFunc) → Type 0
  Visits order =
      (m : Map ServableFunc)
      → ((k : String) → lookup k (order m) ≡ lookup k m) × (IsKeyed m → IsKeyed (order m))

  -- The last function of the list that has the slug, or else the one given.
  abbrev pub latest : String → List ServableFunc → Option ServableFunc → Option ServableFunc
  latest s [] o = o
  latest s (f ∷ fs) o = latest s fs (if str_eq (slug slug_make f app_name) s then some f else o)

  insert-IsKeyed :
      (f : ServableFunc) (m : Map ServableFunc)
      → IsKeyed m
      → IsKeyed (insert (slug slug_make f app_name) f m)
  unfolding insert
  insert-IsKeyed f [] h = (refl, tt)
  insert-IsKeyed f (e ∷ m) h = ground (arith, insert-IsKeyed f m h.1)

  add_slugs-IsKeyed :
      (fs : List ServableFunc) (m : Map ServableFunc)
      → IsKeyed m
      → IsKeyed (add_slugs slug_make app_name fs m)
  unfolding add_slugs
  add_slugs-IsKeyed [] m h = h
  add_slugs-IsKeyed (f ∷ fs) m h = add_slugs-IsKeyed fs _ (insert-IsKeyed f m h)

  lookup-add_slugs :
      (s : String) (fs : List ServableFunc) (m : Map ServableFunc)
      → lookup s (add_slugs slug_make app_name fs m) ≡ latest s fs (lookup s m)
  unfolding add_slugs
  lookup-add_slugs s [] m = refl
  lookup-add_slugs s (f ∷ fs) m =
      lookup-add_slugs s fs _ ∙ ap (latest s fs) (lookup-insert (slug slug_make f app_name) s f m)

  get-lookup :
      (s : String) (m : Map ServableFunc)
      → IsKeyed m
      → get_servable_function_by_slug slug_make app_name s (map (λ e. e.1) m) ≡ lookup s m
  unfolding get_servable_function_by_slug lookup
  get-lookup s [] h = refl
  get-lookup s (e ∷ m) h = rw (h.0, get-lookup s m h.1) refl

  -- After a registration a slug finds the last function that has it among those that the handler had
  -- and those that are registered, in this order, whatever the order of a map's iteration is.
  pub get-register :
      (order : Map ServableFunc → Map ServableFunc) (s : String) (funcs new : List ServableFunc)
      → Visits order
      → get_servable_function_by_slug slug_make app_name s
          (register slug_make app_name order funcs new)
        ≡ latest s new (latest s funcs none)
  unfolding register lookup
  get-register order s funcs new v =
      let m = add_slugs slug_make app_name new (add_slugs slug_make app_name funcs []) in
      let keyed = add_slugs-IsKeyed new _ (add_slugs-IsKeyed funcs [] tt) in
      get-lookup s (order m) ((v m).1 keyed)
      ∙ (v m).0 s
      ∙ lookup-add_slugs s new _
      ∙ ap (latest s new) (lookup-add_slugs s funcs [])
