-- ===== src/Auth/Server/Command.antt =====
-- What the command auth/cmd/server/main.go serves.
use proxy_common.Common.{◌≡◌, refl, ◌∙◌, ◌↔◌, true, none, some, ◌∷◌, arith, Option-cases, inl, inr}
use proxy_common.Common.Bytes.{Bytes, codes, bytes_eq, bytes_has_eq}
use proxy_common.Common.GoMap.{lookup, insert}
use proxy_common.Auth.Config.{Config, Loaded, loaded, failed, load_from_env, read_failed}
use proxy_common.Auth.Config
use proxy_common.Auth.Handlers
use proxy_common.Auth.Metrics.{new_prometheus_metrics}
use proxy_common.Auth.Server.{
  apply_option, apply_options, handlers_of, handle_func, handle_all, routes, setup_routes, finish,
  configure, Server, not_created, invalid_config, new, main, start, choose, start_server, listening,
  port, metrics_endpoint,
}
use proxy_common.Auth.Server.Creation.{fixed_routes}

-- the server of a configuration, with the test endpoint and the metrics
abbrev pub served : Config → Server
served cfg = record {
  config = cfg;
  handlers = some (Handlers.new cfg);
  recorder = new_prometheus_metrics;
  mux = insert (codes "/metrics") metrics_endpoint (fixed_routes true);
}

start_server_lem :
    (env : Bytes → Bytes) (load : Loaded) (cfg : Config)
    → start_server env load cfg ≡ elim (Config.validate cfg) [
      | some error ↦ not_created (invalid_config error)
      | none ↦ listening (58 ∷ port env) (served cfg)
    ]
unfolding start_server new configure apply_options apply_option finish handlers_of setup_routes
    routes handle_all handle_func lookup insert bytes_eq
start_server_lem env load cfg = elim (Option-cases (Config.validate cfg)) [
  | inl valid ↦ rw (start_server, new, finish, valid) refl
  | inr (error, bad) ↦ rw (start_server, new, finish, bad) refl
]

start_server-listening :
    (env : Bytes → Bytes) (load : Loaded) (cfg : Config) (address : Bytes) (s : Server)
    → (start_server env load cfg ≡ listening address s)
      ↔ ((address ≡ 58 ∷ port env) × (Config.validate cfg ≡ none) × (s ≡ served cfg))
start_server-listening env load cfg address s =
    let started = start_server_lem env load cfg in
    elim (Option-cases (Config.validate cfg)) [
      | inr (error, bad) ↦ (λ e. ground arith, λ (a, valid, same). ground arith)
      | inl valid ↦ (
        λ e. (ground arith, valid, ground arith),
        λ (a, v, same). started ∙ rw (valid, a, same) refl,
      )
    ]

start-listening :
    (env : Bytes → Bytes) (load source : Loaded) (address : Bytes) (s : Server)
    → (start env load source ≡ listening address s) ↔ (
        (cfg : Config) × (source ≡ loaded cfg)
        × (address ≡ 58 ∷ port env)
        × (Config.validate cfg ≡ none)
        × (s ≡ served cfg))
unfolding start
start-listening env load (loaded c) address s =
    let (to, from) = start_server-listening env load c address s in
    (
      λ m. let (a, valid, known) = to m in (c, refl, a, valid, known),
      λ (cfg, same, address, valid, known).
          let e : cfg ≡ c = ground arith in from (address, rw⁻¹ e valid, rw⁻¹ e known),
    )
start-listening env load (failed error) address s =
    (λ m. absurd (ground arith), λ (cfg, same, a, valid, known). absurd (ground arith))

-- The program listens exactly if it has a configuration, that of the environment or else that of the
-- file, and the configuration is valid; it listens on the port `PORT`, or 8081, with fresh handlers
-- of that configuration, the Prometheus recorder, the test endpoint and the metrics at `/metrics`.
main-listening :
    (env : Bytes → Bytes) (load : Loaded) (address : Bytes) (s : Server)
    → (main env load ≡ listening address s) ↔ (
        (cfg : Config) × (choose (load_from_env env) load ≡ loaded cfg)
        × (address ≡ 58 ∷ port env)
        × (Config.validate cfg ≡ none)
        × (s ≡ served cfg))
unfolding main
main-listening env load address s =
    start-listening env load (choose (load_from_env env) load) address s
