-- ===== src/Auth/Server/Wiring.antt =====
-- How the options of auth/server/server.go decide the server that `New` returns.
use proxy_common.Common.{
  ◌≡◌, refl, inl, inr, Option, none, some, List, [], ◌∷◌, arith, Option-cases,
}
use proxy_common.Common.Bytes.{bytes_has_eq}
use proxy_common.Auth.Config.{Config, Loaded, LoadError, loaded, failed, Invalid, load_from_env}
use proxy_common.Auth.Config
use proxy_common.Auth.Handlers.{Handlers}
use proxy_common.Auth.Handlers
use proxy_common.Auth.Metrics.{MetricsRecorder}
use proxy_common.Auth.Server.{
  Draft, ServerOption, with_config, with_metrics, with_metrics_path, with_test_mode,
  with_custom_metrics, apply_option, apply_options, handlers_of, setup_routes, finish, Server,
  created,
}

-- the configuration of the last `WithConfig`, or the one before
unfoldable pub last_config : List ServerOption → Option Config → Option Config
last_config [] c = c
last_config (with_config c ∷ opts) _ = last_config opts c
last_config (with_metrics _ ∷ opts) c = last_config opts c
last_config (with_metrics_path _ ∷ opts) c = last_config opts c
last_config (with_test_mode _ ∷ opts) c = last_config opts c
last_config (with_custom_metrics _ ∷ opts) c = last_config opts c

-- the first `WithCustomMetrics`, with the configuration of the last `WithConfig` before it
unfoldable pub first_custom :
    List ServerOption → Option Config → Option (Option Config × MetricsRecorder)
first_custom [] c = none
first_custom (with_config c ∷ opts) _ = first_custom opts c
first_custom (with_metrics _ ∷ opts) c = first_custom opts c
first_custom (with_metrics_path _ ∷ opts) c = first_custom opts c
first_custom (with_test_mode _ ∷ opts) c = first_custom opts c
first_custom (with_custom_metrics m ∷ opts) c = some (c, m)

pub config-apply_options :
    (opts : List ServerOption) (s : Draft)
    → (apply_options opts s).config ≡ last_config opts s.config
unfolding apply_options apply_option last_config
config-apply_options [] s = refl
config-apply_options (with_config c ∷ opts) s = config-apply_options opts _
config-apply_options (with_metrics b ∷ opts) s = config-apply_options opts _
config-apply_options (with_metrics_path p ∷ opts) s = config-apply_options opts _
config-apply_options (with_test_mode b ∷ opts) s = config-apply_options opts _
config-apply_options (with_custom_metrics m ∷ opts) s = elim (Option-cases s.handlers) [
  | inl absent ↦ rw absent (config-apply_options opts _)
  | inr (built, present) ↦ rw present (config-apply_options opts _)
]

-- handlers that were built stay
kept-apply_options :
    (opts : List ServerOption) (s : Draft) (built : Option Config × MetricsRecorder)
    → s.handlers ≡ some built
    → (apply_options opts s).handlers ≡ some built
unfolding apply_options apply_option
kept-apply_options [] s built e = e
kept-apply_options (with_config c ∷ opts) s built e = kept-apply_options opts _ built e
kept-apply_options (with_metrics b ∷ opts) s built e = kept-apply_options opts _ built e
kept-apply_options (with_metrics_path p ∷ opts) s built e = kept-apply_options opts _ built e
kept-apply_options (with_test_mode b ∷ opts) s built e = kept-apply_options opts _ built e
kept-apply_options (with_custom_metrics m ∷ opts) s built e =
    rw e (kept-apply_options opts _ built refl)

pub handlers-apply_options :
    (opts : List ServerOption) (s : Draft)
    → s.handlers ≡ none
    → (apply_options opts s).handlers ≡ first_custom opts s.config
unfolding apply_options apply_option first_custom
handlers-apply_options [] s e = e
handlers-apply_options (with_config c ∷ opts) s e = handlers-apply_options opts _ e
handlers-apply_options (with_metrics b ∷ opts) s e = handlers-apply_options opts _ e
handlers-apply_options (with_metrics_path p ∷ opts) s e = handlers-apply_options opts _ e
handlers-apply_options (with_test_mode b ∷ opts) s e = handlers-apply_options opts _ e
handlers-apply_options (with_custom_metrics m ∷ opts) s e =
    rw e (kept-apply_options opts _ (s.config, m) refl)

-- the configuration of handlers, if they have one
abbrev pub fresh : Option Config → Option Handlers
fresh none = none
fresh (some c) = some (Handlers.new c)

-- the configuration that the handlers get, given that of the server
abbrev pub expected_handlers : Config → Option (Option Config × MetricsRecorder) → Option Handlers
expected_handlers cfg none = some (Handlers.new cfg)
expected_handlers cfg (some (c, m)) = fresh c

pub handlers-finish :
    (cfg : Config) (d : Draft) (s : Server)
    → finish cfg d ≡ created s
    → (Config.validate cfg ≡ none)
      × (s.config ≡ cfg)
      × (s.handlers ≡ expected_handlers cfg d.handlers)
unfolding finish handlers_of
handlers-finish cfg d s e = elim (Option-cases (Config.validate cfg)) [
  | inr (error, bad) ↦ ground arith
  | inl valid ↦ elim (Option-cases (setup_routes d)) [
    | inl clash ↦ ground arith
    | inr (mux, fits) ↦ (valid, ground arith, ground arith)
  ]
]
