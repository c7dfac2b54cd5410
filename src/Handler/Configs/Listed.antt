-- ===== src/Handler/Configs/Listed.antt =====
-- The configurations of a handler's functions, and the requests that they lead to.
use inngestgo.Prelude.{
  String, Bool, ◌≡◌, ◌≢◌, refl, ap, ◌∙◌, Option, some, List, [], ◌∷◌, ℤ, arith, str_eq_iff, lookup,
  insert, lookup-insert, or_else, Map, subst,
}
use inngestgo.Results.{ok}
use inngestgo.Funcs.{ServableFunc, slug}
use inngestgo.Options.{Url}
use inngestgo.Http.{get_query}
use inngestgo.Handler.Configs.{
  SdkFunction, create_function_configs, configs, with_function, function_config,
}

-- The same URL but for the parameters fnId and step of its query.
abbrev pub Differs : Url → Url → Type 0
Differs u v =
    (v.scheme ≡ u.scheme)
    × (v.host ≡ u.host)
    × (v.path ≡ u.path)
    × (v.others ≡ u.others)
    × ((key : String) → key ≢ "fnId" → key ≢ "step" → lookup key v.query ≡ lookup key u.query)

Differs-trans : (u v w : Url) → Differs u v → Differs v w → Differs u w
Differs-trans u v w (a, b, c, d, q) (a2, b2, c2, d2, q2) =
    (a2 ∙ a, b2 ∙ b, c2 ∙ c, d2 ∙ d, λ key f s. q2 key f s ∙ q key f s)

module _ (duration_text : ℤ → String) (slug_make : String → String) (url_text : Url → String) where
  -- The URL of a configuration has the query's fnId and step set, and is the app's URL elsewhere.
  abbrev pub LeadsTo : String → Url → ServableFunc → Url → Type 0
  LeadsTo app_name u fn v =
      (get_query "fnId" v.query ≡ slug slug_make fn app_name)
      × (get_query "step" v.query ≡ "step")
      × Differs u v

  abbrev pub Configures : String → Url → ServableFunc → SdkFunction → Type 0
  Configures app_name u fn c =
      (c.slug ≡ slug slug_make fn app_name)
      × (c.name ≡ fn.fc.name)
      × ((v : Url) × (c.step.url ≡ url_text v) × LeadsTo app_name u fn v)

  -- One configuration for each function, in the same order.
  abbrev pub Listed : String → Url → List ServableFunc → List SdkFunction → Type 0
  Listed app_name u [] [] = Unit
  Listed app_name u [] (c ∷ cs) = ⊥
  Listed app_name u (fn ∷ fns) [] = ⊥
  Listed app_name u (fn ∷ fns) (c ∷ cs) = Configures app_name u fn c × Listed app_name u fns cs

  -- Set one after the other.
  abbrev both : String → Map (List String) → Map (List String)
  both id q = insert "step" ("step" ∷ []) (insert "fnId" (id ∷ []) q)

  lookup-both :
      (id key : String) (q : Map (List String))
      → key ≢ "fnId"
      → key ≢ "step"
      → lookup key (both id q) ≡ lookup key q
  lookup-both id key q f s = ground (
    arith,
    lookup-insert "step" key ("step" ∷ []) (insert "fnId" (id ∷ []) q),
    lookup-insert "fnId" key (id ∷ []) q,
    str_eq_iff "step" key,
    str_eq_iff "fnId" key,
  )

  abbrev first_value : Option (List String) → String
  first_value o = elim (or_else o []) [ [] ↦ "" | v ∷ vs ↦ v ]

  get_query-both :
      (id : String) (q : Map (List String))
      → (get_query "fnId" (both id q) ≡ id) × (get_query "step" (both id q) ≡ "step")
  unfolding get_query
  get_query-both id q = (
    ap first_value (
        lookup-insert "step" "fnId" ("step" ∷ []) (insert "fnId" (id ∷ []) q)
        ∙ lookup-insert "fnId" "fnId" (id ∷ []) q),
    ap first_value (lookup-insert "step" "step" ("step" ∷ []) (insert "fnId" (id ∷ []) q)),
  )

  with_function-Differs :
      (id : String) (u : Url) → Differs u (with_function duration_text slug_make url_text id u)
  unfolding with_function
  with_function-Differs id u = (refl, refl, refl, refl, λ key f s. lookup-both id key u.query f s)

  with_function-LeadsTo :
      (app_name : String) (fn : ServableFunc) (u : Url)
      → LeadsTo app_name u fn
          (with_function duration_text slug_make url_text (slug slug_make fn app_name) u)
  unfolding with_function
  with_function-LeadsTo app_name fn u = (
    (get_query-both (slug slug_make fn app_name) u.query).0,
    (get_query-both (slug slug_make fn app_name) u.query).1,
    with_function-Differs (slug slug_make fn app_name) u,
  )

  Listed-Differs :
      (app_name : String) (u v : Url) (fns : List ServableFunc) (cs : List SdkFunction)
      → Differs u v
      → Listed app_name v fns cs
      → Listed app_name u fns cs
  Listed-Differs app_name u v [] [] d h = tt
  Listed-Differs app_name u v [] (c ∷ cs) d h = h
  Listed-Differs app_name u v (fn ∷ fns) [] d h = h
  Listed-Differs app_name u v (fn ∷ fns) (c ∷ cs) d ((s, n, (w, t, (id, st, e))), rest) =
      ((s, n, (w, t, (id, st, Differs-trans u v w d e))), Listed-Differs app_name u v fns cs d rest)

  configs-Listed :
      (app_name : String) (fns : List ServableFunc) (u : Url)
      → Listed app_name u fns (configs duration_text slug_make url_text app_name fns u)
  unfolding configs function_config
  configs-Listed app_name [] u = tt
  configs-Listed app_name (fn ∷ fns) u =
      let here = with_function duration_text slug_make url_text (slug slug_make fn app_name) u in
      (
        (refl, refl, (here, refl, with_function-LeadsTo app_name fn u)),
        Listed-Differs app_name u here fns _ (with_function-Differs (slug slug_make fn app_name) u)
            (configs-Listed app_name fns here),
      )

  -- Where configurations are made, there is one for each function, in the same order, with its slug
  -- and its name; its URL is the app's URL with the parameters fnId and step set to the slug and to
  -- "step", whatever they were, and with every other part unchanged.
  pub create_function_configs-Listed :
      (app_name : String) (fns : List ServableFunc) (u : Url) (is_connect : Bool)
      (cs : List SdkFunction)
      → create_function_configs duration_text slug_make url_text app_name fns u is_connect
        ≡ some (ok cs)
      → Listed app_name u fns cs
  unfolding create_function_configs
  create_function_configs-Listed app_name fns u is_connect cs h =
      subst (Listed app_name u fns) (ground arith) (configs-Listed app_name fns u)
