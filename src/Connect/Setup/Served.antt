-- ===== src/Connect/Setup/Served.antt =====
-- A worker's set-up for the functions that a handler configures.
use inngestgo.Prelude.{
  String, ◌≡◌, ◌≢◌, refl, sym, ◌∙◌, Bool, true, false, some, List, [], ◌∷◌, map, Map, lookup,
  insert, lookup-insert, arith, ℤ, All, Bool-cases, str_eq, str_eq_iff, ◌⊎◌, inl, inr,
}
use inngestgo.Results.{ok}
use inngestgo.Funcs.{ServableFunc, slug}
use inngestgo.Options.{Url}
use inngestgo.Http.{get_query}
use inngestgo.Handler.Configs.{SdkFunction, create_function_configs}
use inngestgo.Handler.Configs.Listed.{Listed, create_function_configs-Listed}
use inngestgo.Connect.RunLoop.Defs.{Keys, Loop, connecting, start}
use inngestgo.Connect.Setup.{registered, as_text, step_urls, function_slugs, SetupCalls, set_up}

module _ (duration_text : ℤ → String) (slug_make : String → String) (url_text : Url → String) where
  -- A slug stands for one URL, which leads to the slug's function.
  abbrev pub IsServed : Map (List String) → String → Type 0
  IsServed slugs id =
      (v : Url) × (lookup id slugs ≡ some (url_text v ∷ [])) × (get_query "fnId" v.query ≡ id)

  insert-IsServed :
      (slugs : Map (List String)) (id : String) (v : Url) (key : String)
      → get_query "fnId" v.query ≡ id
      → (id ≡ key) ⊎ IsServed slugs key
      → IsServed (insert id (url_text v ∷ []) slugs) key
  insert-IsServed slugs id v key q (inl e) =
      (v, lookup-insert id key (url_text v ∷ []) slugs ∙ rw ((str_eq_iff id key).1 e) refl, q ∙ e)
  insert-IsServed slugs id v key q (inr (w, found, leads)) = elim (Bool-cases (str_eq id key)) [
    | inl same ↦ (
      v,
      lookup-insert id key (url_text v ∷ []) slugs ∙ rw same refl,
      q ∙ (str_eq_iff id key).0 same,
    )
    | inr other ↦ (w, lookup-insert id key (url_text v ∷ []) slugs ∙ rw other found, leads)
  ]

  function_slugs-IsServed :
      (app_name : String) (u : Url) (fns : List ServableFunc) (cs : List SdkFunction)
      (slugs : Map (List String))
      → Listed duration_text slug_make url_text app_name u fns cs
      → (done : Map (List String)) × (function_slugs (map registered cs) slugs ≡ some done)
        × ((key : String) → IsServed slugs key → IsServed done key)
        × All (λ fn. IsServed done (slug slug_make fn app_name)) fns
  unfolding function_slugs step_urls registered as_text lookup
  function_slugs-IsServed app_name u [] [] slugs l = (slugs, refl, (λ key s. s), tt)
  function_slugs-IsServed app_name u [] (c ∷ cs) slugs l = absurd l
  function_slugs-IsServed app_name u (fn ∷ fns) [] slugs l = absurd l
  function_slugs-IsServed app_name u (fn ∷ fns) (c ∷ cs) slugs ((s, n, (v, url, leads)), l) =
      let q = leads.0 in
      let grown = insert c.slug (c.step.url ∷ []) slugs in
      let (done, e, keeps, served) = function_slugs-IsServed app_name u fns cs grown l in
      let entry : (key : String) → (c.slug ≡ key) ⊎ IsServed slugs key → IsServed grown key =
        λ key h. rw url (insert-IsServed slugs c.slug v key (q ∙ sym s) h) in
      (
        done,
        e,
        λ key k. keeps key (entry key (inr k)),
        (keeps (slug slug_make fn app_name) (entry (slug slug_make fn app_name) (inl s)), served),
      )

  -- A worker with a signing key that is given the configurations that createFunctionConfigs makes
  -- of a handler's functions, and that can marshal them, is set up: its run loop starts with that
  -- key, no step lacks its URL, and the map of slugs that it logs has each function's slug with one
  -- URL, whose parameter fnId is that slug.
  pub set_up-IsServed :
      (keys : Keys) (app_name : String) (fns : List ServableFunc) (u : Url) (is_connect : Bool)
      (cs : List SdkFunction) (calls : SetupCalls)
      → keys.hashed_signing_key ≢ ""
      → create_function_configs duration_text slug_make url_text app_name fns u is_connect
        ≡ some (ok cs)
      → calls.marshalled_functions ≡ ok tt
      → calls.marshalled_capabilities ≡ ok tt
      → (slugs : Map (List String)) × (l : Loop) × (set_up keys (map registered cs) calls
          ≡ some (ok (slugs, l)))
        × (l.auth.hashed_signing_key ≡ keys.hashed_signing_key)
        × All (λ fn. IsServed slugs (slug slug_make fn app_name)) fns
  unfolding set_up start
  set_up-IsServed keys app_name fns u is_connect cs calls k h m n =
      let l =
        create_function_configs-Listed duration_text slug_make url_text app_name fns u is_connect cs
          h in
      let (done, e, keeps, served) = function_slugs-IsServed app_name u fns cs [] l in
      (
        done,
        record {
          state = connecting;
          auth = record { hashed_signing_key = keys.hashed_signing_key; fallback = false };
          attempts = 0;
          is_initial_connection = true;
        },
        ground (arith, str_eq_iff keys.hashed_signing_key ""),
        refl,
        served,
      )
