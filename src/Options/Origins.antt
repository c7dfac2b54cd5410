-- ===== src/Options/Origins.antt =====
-- Where a handler sends its requests.
use inngestgo.Prelude.{
  String, Bool, true, false, ◌≡◌, ◌≢◌, refl, ◌⊎◌, inl, Option, none, some, arith, str_eq_iff,
  or_else,
}
use inngestgo.Options.{
  Environment, HandlerOpts, is_dev, env_is_dev, dev_server_url, get_api_base_url,
  get_event_api_base_url, dev_server_origin, default_api_origin, default_event_api_origin,
  or_default,
}

-- The development server's address: that of the environment if it is one, or the default.
abbrev pub IsDevServer : (String → Bool) → Environment → String → Type 0
IsDevServer has_host e s = ((s ≡ e.dev) × (s ≢ "") × (has_host s ≡ true)) ⊎ (s ≡ dev_server_origin)

-- A URL by the option, else by the environment, else the public one.
abbrev pub IsConfigured : Option String → String → String → String → Type 0
IsConfigured option variable def s =
    (option ≡ some s)
    ⊎ ((option ≡ none) × (((variable ≢ "") × (s ≡ variable)) ⊎ ((variable ≡ "") × (s ≡ def))))

IsConfigured_lem :
    (option : Option String) (variable def : String)
    → IsConfigured option variable def (or_else option (or_default variable def))
IsConfigured_lem none variable def = ground (arith, str_eq_iff variable "")
IsConfigured_lem (some s) variable def = inl refl

-- In dev mode, which an option decides before the environment does, API calls and events go to the
-- development server, whatever base URLs are configured. Outside of it they go to the option's base
-- URL, to the environment's if there is no option, and to the public origin if there is neither.
base_urls :
    (has_host : String → Bool) (e : Environment) (h : HandlerOpts)
    → (((h.dev ≡ some true) ⊎ ((h.dev ≡ none) × (e.dev ≢ "")))
        × IsDevServer has_host e (get_api_base_url has_host e h)
        × (get_event_api_base_url has_host e h ≡ get_api_base_url has_host e h))
      ⊎ (((h.dev ≡ some false) ⊎ ((h.dev ≡ none) × (e.dev ≡ "")))
          × IsConfigured h.api_base_url e.api_base_url default_api_origin
              (get_api_base_url has_host e h)
          × IsConfigured h.event_api_base_url e.event_api_base_url default_event_api_origin
              (get_event_api_base_url has_host e h))
unfolding is_dev env_is_dev get_api_base_url get_event_api_base_url dev_server_url
base_urls has_host e h = ground (
  arith,
  str_eq_iff e.dev "",
  IsConfigured_lem h.api_base_url e.api_base_url default_api_origin,
  IsConfigured_lem h.event_api_base_url e.event_api_base_url default_event_api_origin,
)
