-- ===== src/Auth/Server.antt =====
-- auth/server/server.go: the options, the construction and the routes of the server; and the command
-- auth/cmd/server/main.go. A pattern is a plain path: without a method, a host, a wildcard and a
-- slash at the end; so is the path of a request. A `Config` is not changed behind a pointer.
pub mod Wiring
pub mod Creation
pub mod Command
pub mod Serving
pub mod Counts
pub mod Counters
pub mod Limit
use proxy_common.Common.{
  Bool, true, false, Option, none, some, List, [], ◌∷◌, ◌++◌, ℤ, if◌then◌else◌,
}
use proxy_common.Common.Bytes.{Bytes, codes, bytes_eq, bytes_has_eq}
use proxy_common.Common.GoMap.{GoMap, lookup, insert}
use proxy_common.Auth.Config.{Config, Loaded, LoadError, loaded, failed, Invalid, load_from_env}
use proxy_common.Auth.Config
use proxy_common.Auth.Puzzle.{Platform, Moment}
use proxy_common.Auth.Jwt.{Library}
use proxy_common.Auth.Handlers.{Handlers, VerifyRequest, VerifyResponse, verify_handler}
use proxy_common.Auth.Handlers
use proxy_common.Auth.Handlers.Issue.{
  HttpResult, PuzzleResponse, SolveRequest, TokenResponse, StatusResponse, puzzle_handler,
  solve_handler, test_solve_handler, status_handler,
}
use proxy_common.Auth.Metrics.{MetricsRecorder, new_noop_metrics, new_prometheus_metrics}

pub data Endpoint : Type 0 where
  puzzle_endpoint solve_endpoint verify_endpoint status_endpoint : Endpoint
  test_solve_endpoint metrics_endpoint : Endpoint

-- A server as `New` builds it. A pointer that may be nil is an `Option`; handlers are the
-- configuration and the recorder that `handlers.New` was given.
pub record Draft : Type 0 where
  pub config : Option Config
  pub handlers : Option (Option Config × MetricsRecorder)
  pub enable_metrics : Bool
  pub metrics_path : Bytes
  pub enable_test_mode : Bool

-- the functions that make an `Option`
pub data ServerOption : Type 0 where
  with_config : Option Config → ServerOption
  with_metrics : Bool → ServerOption
  with_metrics_path : Bytes → ServerOption
  with_test_mode : Bool → ServerOption
  with_custom_metrics : MetricsRecorder → ServerOption

unfoldable pub apply_option : ServerOption → Draft → Draft
apply_option (with_config cfg) s = record s { config = cfg }
apply_option (with_metrics enable) s = record s { enable_metrics = enable }
apply_option (with_metrics_path path) s = record s { metrics_path = path }
apply_option (with_test_mode enable) s = record s { enable_test_mode = enable }
apply_option (with_custom_metrics m) s = elim s.handlers [
  | none ↦ record s { handlers = some (s.config, m) }
  | some built ↦ s
]

unfoldable pub apply_options : List ServerOption → Draft → Draft
unfolding apply_option
apply_options [] s = s
apply_options (opt ∷ opts) s = apply_options opts (apply_option opt s)

abbrev pub new_draft : Draft
new_draft = record {
  config = none;
  handlers = none;
  enable_metrics = true;
  metrics_path = codes "/metrics";
  enable_test_mode = false;
}

abbrev pub Mux : Type 0
Mux = GoMap Bytes Endpoint

-- `mux.HandleFunc`, which panics on an empty pattern and on a second one: `none`
unfoldable pub handle_func : Bytes → Endpoint → Mux → Option Mux
handle_func pattern endpoint mux =
    if bytes_eq pattern []
    then none
    else elim (lookup pattern mux) [ none ↦ some (insert pattern endpoint mux) | some other ↦ none ]

unfoldable pub handle_all : List (Bytes × Endpoint) → Mux → Option Mux
unfolding handle_func
handle_all [] mux = some mux
handle_all ((pattern, endpoint) ∷ routes) mux = elim (handle_func pattern endpoint mux) [
  | none ↦ none
  | some more ↦ handle_all routes more
]

-- the routes that `setupRoutes` registers, in order
unfoldable pub routes : Draft → List (Bytes × Endpoint)
routes s =
    ((codes "/auth/puzzle", puzzle_endpoint)
      ∷ (codes "/auth/solve", solve_endpoint)
      ∷ (codes "/auth/verify", verify_endpoint)
      ∷ (codes "/auth/status", status_endpoint)
      ∷ [])
    ++ ((if s.enable_test_mode then (codes "/dev/test-solve", test_solve_endpoint) ∷ [] else [])
        ++ (if s.enable_metrics then (s.metrics_path, metrics_endpoint) ∷ [] else []))

unfoldable pub setup_routes : Draft → Option Mux
unfolding handle_all routes
setup_routes s = handle_all (routes s) []

-- A server that `New` returns. Its handlers are `none` if their configuration is nil.
pub record Server : Type 0 where
  pub config : Config
  pub handlers : Option Handlers
  pub recorder : MetricsRecorder
  pub mux : Mux

pub data NewResult : Type 0 where
  load_failed : LoadError → NewResult
  invalid_config : Invalid → NewResult
  panicked : NewResult
  created : Server → NewResult

-- the handlers and the recorder of a server with a configuration
unfoldable pub handlers_of : Config → Draft → Option Handlers × MetricsRecorder
handlers_of cfg s = elim s.handlers [
  | some (built, m) ↦ (elim built [ none ↦ none | some c ↦ some (Handlers.new c) ], m)
  | none ↦ (
    some (Handlers.new cfg),
    if s.enable_metrics then new_prometheus_metrics else new_noop_metrics,
  )
]

abbrev pub server_of : Config → Draft → Mux → Server
server_of cfg s mux =
    let (handlers, recorder) = handlers_of cfg s in
    record { config = cfg; handlers = handlers; recorder = recorder; mux = mux }

-- `New` from the check of the configuration on
unfoldable pub finish : Config → Draft → NewResult
unfolding setup_routes
finish cfg s = elim (Config.validate cfg) [
  | some error ↦ invalid_config error
  | none ↦ elim (setup_routes s) [ none ↦ panicked | some mux ↦ created (server_of cfg s mux) ]
]

-- `New` behind the options, with the configuration that they left
unfoldable pub configure : Option Config → Loaded → Draft → NewResult
configure (some cfg) load s = finish cfg s
configure none (failed error) s = load_failed error
configure none (loaded cfg) s = finish cfg s

-- `New`; `load` is what `config.Load` yields
unfoldable pub new : Loaded → List ServerOption → NewResult
unfolding configure apply_options
new load opts = let s = apply_options opts new_draft in configure s.config load s

-- `Quick`
unfoldable pub quick : Loaded → NewResult
quick load = new load []

-- `MustNew`, which panics on an error
unfoldable pub must_new : Loaded → List ServerOption → Option Server
must_new load opts = elim (new load opts) [
  | load_failed error ↦ none
  | invalid_config error ↦ none
  | panicked ↦ none
  | created s ↦ some s
]

-- `main` of auth/cmd/server: the address on which the server listens, and the server, or what stops
-- the program.
pub data Started : Type 0 where
  fatal_load : LoadError → Started
  not_created : NewResult → Started
  listening : Bytes → Server → Started

unfoldable pub port : (Bytes → Bytes) → Bytes
port env = let p = env (codes "PORT") in if bytes_eq p [] then codes "8081" else p

unfoldable pub start_server : (Bytes → Bytes) → Loaded → Config → Started
start_server env load cfg =
    elim (new load (with_config (some cfg) ∷ with_metrics true ∷ with_test_mode true ∷ [])) [
      | load_failed error ↦ not_created (load_failed error)
      | invalid_config error ↦ not_created (invalid_config error)
      | panicked ↦ not_created panicked
      | created s ↦ listening (58 ∷ port env) s
    ]

-- the configuration of the environment, or else the file's
unfoldable pub choose : Loaded → Loaded → Loaded
choose (loaded cfg) load = loaded cfg
choose (failed missing) load = load

unfoldable pub start : (Bytes → Bytes) → Loaded → Loaded → Started
unfolding start_server
start env load (loaded cfg) = start_server env load cfg
start env load (failed error) = fatal_load error

unfoldable pub main : (Bytes → Bytes) → Loaded → Started
unfolding start choose
main env load = start env load (choose (load_from_env env) load)
