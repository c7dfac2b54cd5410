-- ===== src/Handler/Configs/Served.antt =====
-- Requests to the URLs of the configurations find functions.
use inngestgo.Prelude.{
  String, Bool, true, ◌||◌, ◌≡◌, refl, ◌∙◌, sym, ◌⊎◌, inl, inr, some, List, [], ◌∷◌, ℤ, arith,
  str_eq, str_eq_iff, All, Bool-cases, subst,
}
use inngestgo.Results.{ok}
use inngestgo.Funcs.{ServableFunc, slug}
use inngestgo.Options.{Url}
use inngestgo.Http.{get_query}
use inngestgo.Handler.Invoke.{find_function}
use inngestgo.Handler.Configs.{SdkFunction, create_function_configs}
use inngestgo.Handler.Configs.Listed.{Listed, create_function_configs-Listed}

module _ (slug_make : String → String) (app_name : String) where
  -- The handler has a function that the slug stands for, with the app's name or without it.
  abbrev pub Finds : List ServableFunc → String → Type 0
  Finds fns id =
      (g : ServableFunc) × (find_function slug_make app_name id fns ≡ some g)
      × ((slug slug_make g app_name ≡ id) ⊎ (slug slug_make g "" ≡ id))

  Finds-matches :
      (f : ServableFunc) (fns : List ServableFunc) (id : String)
      → (str_eq (slug slug_make f app_name) id || str_eq (slug slug_make f "") id) ≡ true
      → Finds (f ∷ fns) id
  unfolding find_function
  Finds-matches f fns id h = (
    f,
    rw (h, find_function) refl,
    ground (arith, str_eq_iff (slug slug_make f app_name) id, str_eq_iff (slug slug_make f "") id),
  )

  Finds-tail :
      (f : ServableFunc) (fns : List ServableFunc) (id : String) → Finds fns id → Finds (f ∷ fns) id
  unfolding find_function
  Finds-tail f fns id (g, e, s) =
      elim (Bool-cases (str_eq (slug slug_make f app_name) id || str_eq (slug slug_make f "") id)) [
        | inl h ↦ Finds-matches f fns id h
        | inr h ↦ (g, rw (h, find_function) e, s)
      ]

  All-Finds :
      (f : ServableFunc) (all some_of : List ServableFunc)
      → All (λ fn. Finds all (slug slug_make fn app_name)) some_of
      → All (λ fn. Finds (f ∷ all) (slug slug_make fn app_name)) some_of
  All-Finds f all [] h = tt
  All-Finds f all (g ∷ gs) (h, hs) =
      (Finds-tail f all (slug slug_make g app_name) h, All-Finds f all gs hs)

  Finds_lem : (fns : List ServableFunc) → All (λ fn. Finds fns (slug slug_make fn app_name)) fns
  Finds_lem [] = tt
  Finds_lem (f ∷ fns) = (
    Finds-matches f fns (slug slug_make f app_name)
        (ground (arith, str_eq_iff (slug slug_make f app_name) (slug slug_make f app_name))),
    All-Finds f fns fns (Finds_lem fns),
  )

  -- A configuration's URL is one whose fnId the handler finds a function for.
  abbrev pub IsServed : (Url → String) → List ServableFunc → SdkFunction → Type 0
  IsServed url_text fns c =
      (v : Url) × (c.step.url ≡ url_text v)
      × (get_query "fnId" v.query ≡ c.slug)
      × Finds fns (get_query "fnId" v.query)

  Listed-IsServed :
      (duration_text : ℤ → String) (url_text : Url → String) (u : Url) (all fns : List ServableFunc)
      (cs : List SdkFunction)
      → All (λ fn. Finds all (slug slug_make fn app_name)) fns
      → Listed duration_text slug_make url_text app_name u fns cs
      → All (IsServed url_text all) cs
  Listed-IsServed duration_text url_text u all [] [] f h = tt
  Listed-IsServed duration_text url_text u all [] (c ∷ cs) f h = absurd h
  Listed-IsServed duration_text url_text u all (fn ∷ fns) [] f h = absurd h
  Listed-IsServed duration_text url_text u all (fn ∷ fns) (c ∷ cs) (f, fs)
        ((s, n, (v, t, (q, st, d))), h) =
      (
        (v, t, q ∙ sym s, subst (Finds all) (sym q) f),
        Listed-IsServed duration_text url_text u all fns cs fs h,
      )

-- The URLs that a handler registers are URLs that it serves: the fnId of each is the slug of the
-- configuration, and for it the handler that made them finds a function with that slug, with the
-- app's name or without it.
pub create_function_configs-IsServed :
    (duration_text : ℤ → String) (slug_make : String → String) (url_text : Url → String)
    (app_name : String) (fns : List ServableFunc) (u : Url) (is_connect : Bool)
    (cs : List SdkFunction)
    → create_function_configs duration_text slug_make url_text app_name fns u is_connect
      ≡ some (ok cs)
    → All (IsServed slug_make app_name url_text fns) cs
create_function_configs-IsServed duration_text slug_make url_text app_name fns u is_connect cs h =
    Listed-IsServed slug_make app_name duration_text url_text u fns fns cs
      (Finds_lem slug_make app_name fns)
      (create_function_configs-Listed duration_text slug_make url_text app_name fns u is_connect cs
        h)
