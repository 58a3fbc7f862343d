-- ===== src/Auth/Server/Creation.antt =====
-- When `New` of auth/server/server.go returns a server, and which; and the command auth/cmd/server.
use proxy_common.Common.{
  ◌↔◌, sym, ◌∙◌, ap, some_inj, ◌≡◌, refl, Bool, true, false, not, ◌&&◌, Option, none, some, List,
  [], ◌∷◌, arith, if◌then◌else◌, Option-cases, Bool-cases, inl, inr,
}
use proxy_common.Common.Bytes.{Bytes, codes, bytes_eq, bytes_has_eq}
use proxy_common.Common.GoMap.{lookup, insert}
use proxy_common.Auth.Config.{Config, Loaded, LoadError, loaded, failed, Invalid, load_from_env}
use proxy_common.Auth.Config
use proxy_common.Auth.Server.{
  Draft, ServerOption, apply_options, new_draft, handlers_of, server_of, handle_func, handle_all,
  routes, setup_routes, finish, Mux, Server, created, configure, new, load_failed, puzzle_endpoint,
  solve_endpoint, verify_endpoint, status_endpoint, test_solve_endpoint, metrics_endpoint,
}
use proxy_common.Auth.Server.Wiring.{
  config-apply_options, handlers-apply_options, handlers-finish, last_config, first_custom,
  expected_handlers,
}

-- the routes that do not depend on the path of the metrics
abbrev pub fixed_routes : Bool → Mux
fixed_routes false =
    (codes "/auth/puzzle", puzzle_endpoint)
    ∷ (codes "/auth/solve", solve_endpoint)
    ∷ (codes "/auth/verify", verify_endpoint)
    ∷ (codes "/auth/status", status_endpoint)
    ∷ []
fixed_routes true =
    (codes "/auth/puzzle", puzzle_endpoint)
    ∷ (codes "/auth/solve", solve_endpoint)
    ∷ (codes "/auth/verify", verify_endpoint)
    ∷ (codes "/auth/status", status_endpoint)
    ∷ (codes "/dev/test-solve", test_solve_endpoint)
    ∷ []

abbrev is_none : {A : Type 0} → Option A → Bool
is_none none = true
is_none (some a) = false

-- The metrics, if they are on, have a path that is not empty and not another route's.
unfoldable pub path_fits : Draft → Bool
path_fits d =
    if d.enable_metrics
    then not (bytes_eq d.metrics_path [])
      && is_none (lookup d.metrics_path (fixed_routes d.enable_test_mode))
    else true

-- the routes of a server
unfoldable pub mux_of : Draft → Mux
mux_of d =
    let fixed = fixed_routes d.enable_test_mode in
    if d.enable_metrics then insert d.metrics_path metrics_endpoint fixed else fixed

handle_metrics :
    (path : Bytes) (mux : Mux)
    → handle_all ((path, metrics_endpoint) ∷ []) mux ≡ (
        if not (bytes_eq path []) && is_none (lookup path mux)
        then some (insert path metrics_endpoint mux)
        else none)
unfolding handle_all handle_func
handle_metrics path mux = elim (Option-cases (lookup path mux)) [
  | inl free ↦ rw free (ground arith)
  | inr (other, taken) ↦ rw taken (ground arith)
]

-- `setupRoutes` registers all routes, or panics exactly if the path of the metrics does not fit.
pub setup_routes_lem :
    (d : Draft) → setup_routes d ≡ (if path_fits d then some (mux_of d) else none)
unfolding path_fits mux_of setup_routes routes handle_all handle_func lookup insert bytes_eq
setup_routes_lem d = elim (Bool-cases d.enable_test_mode) [
  | inl test ↦ elim (Bool-cases d.enable_metrics) [
    | inl on ↦ rw (test, on) (handle_metrics d.metrics_path (fixed_routes true))
    | inr off ↦ rw (test, off) refl
  ]
  | inr plain ↦ elim (Bool-cases d.enable_metrics) [
    | inl on ↦ rw (plain, on) (handle_metrics d.metrics_path (fixed_routes false))
    | inr off ↦ rw (plain, off) refl
  ]
]

-- the configuration that `New` uses: the option's, or the loaded one
abbrev pub found : Loaded → Option Config → Option Config
found load (some cfg) = some cfg
found (loaded cfg) none = some cfg
found (failed error) none = none

-- A server that the options describe.
pub record IsWired (load : Loaded) (opts : List ServerOption) (s : Server) : Type 0 where
  pub config : found load (last_config opts none) ≡ some s.config
  pub valid : Config.validate s.config ≡ none
  pub fits : path_fits (apply_options opts new_draft) ≡ true
  pub mux : s.mux ≡ mux_of (apply_options opts new_draft)
  pub handlers : s.handlers ≡ expected_handlers s.config (first_custom opts none)

finish-IsWired :
    (cfg : Config) (d : Draft) (s : Server)
    → finish cfg d ≡ created s
    → (path_fits d ≡ true) × (s.mux ≡ mux_of d)
unfolding finish handlers_of
finish-IsWired cfg d s e = elim (Option-cases (Config.validate cfg)) [
  | inr (error, bad) ↦ ground arith
  | inl valid ↦ elim (Bool-cases (path_fits d)) [
    | inl fits ↦ let routed = setup_routes_lem d in (fits, ground arith)
    | inr clash ↦ let routed = setup_routes_lem d in ground arith
  ]
]

finish_fits :
    (cfg : Config) (d : Draft)
    → Config.validate cfg ≡ none
    → path_fits d ≡ true
    → (s : Server) × (finish cfg d ≡ created s)
unfolding finish handlers_of
finish_fits cfg d valid fits = elim (Option-cases (setup_routes d)) [
  | inl clash ↦ let routed = setup_routes_lem d in absurd (ground arith)
  | inr (mux, fitting) ↦ (server_of cfg d mux, rw (finish, valid, fitting) refl)
]

-- what `New` does with the configuration that it finds
configure_found :
    (load : Loaded) (d : Draft) (given : Option Config) (cfg : Config)
    → found load given ≡ some cfg
    → configure given load d ≡ finish cfg d
unfolding configure
configure_found load d (some c) cfg e = ap (λ x. finish x d) (some_inj e)
configure_found (loaded c) d none cfg e = ap (λ x. finish x d) (some_inj e)
configure_found (failed error) d none cfg e = absurd (ground arith)

new_found :
    (load : Loaded) (opts : List ServerOption) (cfg : Config)
    → found load (last_config opts none) ≡ some cfg
    → new load opts ≡ finish cfg (apply_options opts new_draft)
unfolding new
new_found load opts cfg e =
    ap (λ c. configure c load (apply_options opts new_draft)) (config-apply_options opts new_draft)
    ∙ configure_found load (apply_options opts new_draft) (last_config opts none) cfg e

configure_lost :
    (load : Loaded) (d : Draft) (given : Option Config)
    → found load given ≡ none
    → (error : LoadError) × (configure given load d ≡ load_failed error)
unfolding configure
configure_lost load d (some c) e = absurd (ground arith)
configure_lost (loaded c) d none e = absurd (ground arith)
configure_lost (failed error) d none e = (error, refl)

-- A server that `New` returns has the configuration of the last `WithConfig`, or the loaded one if
-- that is nil or missing, and it is valid; it has the routes of its options; and its handlers are
-- fresh ones with the same configuration, but with that of the last `WithConfig` before the first
-- `WithCustomMetrics`, if there is such an option: with a nil one if no configuration came before.
pub new-IsWired :
    (load : Loaded) (opts : List ServerOption) (s : Server)
    → new load opts ≡ created s
    → IsWired load opts s
unfolding new
new-IsWired load opts s e =
    let known = config-apply_options opts new_draft in
    elim (Option-cases (found load (last_config opts none))) [
      | inl lost ↦
          let (error, stopped) =
            configure_lost load (apply_options opts new_draft) (last_config opts none) lost in
          let other = ap (λ c. configure c load (apply_options opts new_draft)) known ∙ stopped in
          let clash : created s ≡ load_failed error = sym e ∙ other in absurd (ground arith)
      | inr (cfg, got) ↦
          let finished = sym (new_found load opts cfg got) ∙ e in
          let (valid, config, handlers) = handlers-finish cfg _ s finished in
          let (fits, mux) = finish-IsWired cfg _ s finished in
          record {
            config = got ∙ ap some (sym config);
            valid = rw config valid;
            fits = fits;
            mux = mux;
            handlers =
                handlers
                ∙ ap (expected_handlers cfg) (handlers-apply_options opts new_draft refl)
                ∙ ap (λ c. expected_handlers c (first_custom opts none)) (sym config);
          }
    ]

-- `New` returns a server exactly if it finds a configuration, the configuration is valid, and the
-- path of the metrics, if they are on, is neither empty nor that of another route.
new-created :
    (load : Loaded) (opts : List ServerOption)
    → ((s : Server) × (new load opts ≡ created s)) ↔ (
        (cfg : Config) × (found load (last_config opts none) ≡ some cfg)
        × (Config.validate cfg ≡ none)
        × (path_fits (apply_options opts new_draft) ≡ true))
new-created load opts = (
  λ (s, e).
      let wired = new-IsWired load opts s e in (s.config, wired.config, wired.valid, wired.fits),
  λ (cfg, got, valid, fits).
      let finished = new_found load opts cfg got in
      let (s, made) = finish_fits cfg (apply_options opts new_draft) valid fits in
      (s, finished ∙ made),
)
