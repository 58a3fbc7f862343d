-- ===== src/Tests/Servers.antt =====
-- Runs of the server (auth/server/server.go) and of its command (auth/cmd/server/main.go).
use Prim.Native.Nat.{min}
use proxy_common.Auth.Server.Limit.{presents, presented_to, let_through, let_through-min}
use proxy_common.Common.{
  ◌≡◌, refl, ◌↔◌, true, Option, none, some, List, [], ◌∷◌, arith, pos, if◌then◌else◌,
}
use proxy_common.Common.Bytes.{Bytes, codes, bytes_eq}
use proxy_common.Auth.Config.{Config, Loaded, loaded, failed, read_failed, load_from_env}
use proxy_common.Auth.Config
use proxy_common.Auth.Handlers.{new}
use proxy_common.Auth.Metrics.{new_noop_metrics, tokens_issued_total, puzzles_solved_total}
use proxy_common.Auth.Server
use proxy_common.Auth.Server.{
  ServerOption, with_config, with_metrics, with_metrics_path, with_test_mode, with_custom_metrics,
  new_draft, apply_options, Server, created, listening, choose, port,
}
use proxy_common.Auth.Server.Creation.{IsWired, new-IsWired, fixed_routes, mux_of}
use proxy_common.Auth.Server.Serving.{Request, serve_all}
use proxy_common.Auth.Server.Counts.{counter, replied}
use proxy_common.Auth.Server.Counters.{
  serve_all-counters, Solve, Verify, is_issued, is_solved, attempts, success_verifications,
  limited_verifications,
}
use proxy_common.Tests.Puzzles.{utc, toy_platform, toy_config}
use proxy_common.Tests.Tokens.{toy_library, with_token, solved_request}

-- The custom metrics stand in front of the configuration.
abbrev misordered : List ServerOption
misordered =
    with_custom_metrics new_noop_metrics
    ∷ with_config (some toy_config)
    ∷ with_metrics_path (codes "/m")
    ∷ []

abbrev misordered_server : Server
misordered_server = record {
  config = toy_config;
  handlers = none;
  recorder = new_noop_metrics;
  mux = mux_of (apply_options misordered new_draft);
}

new-IsWired_example : IsWired (failed read_failed) misordered misordered_server
unfolding mux_of apply_options proxy_common.Auth.Server.new proxy_common.Auth.Server.configure
    proxy_common.Auth.Server.apply_option proxy_common.Auth.Server.finish
    proxy_common.Auth.Server.handlers_of proxy_common.Auth.Server.setup_routes
    proxy_common.Auth.Server.routes proxy_common.Auth.Server.handle_all
    proxy_common.Auth.Server.handle_func proxy_common.Common.GoMap.lookup
    proxy_common.Common.GoMap.insert bytes_eq proxy_common.Auth.Config.validate
new-IsWired_example = new-IsWired (failed read_failed) misordered misordered_server refl

abbrev request : Bytes → Request
request path = record {
  path = path;
  body = some solved_request;
  token = with_token;
  now = utc (pos 9);
  searched = pos 9;
  random = none;
  second_random = none;
}

abbrev requests : List Request
requests = request (codes "/auth/solve") ∷ request (codes "/auth/verify") ∷ request [] ∷ []

serve_all-counters_example :
    (let (replies, h) =
        serve_all toy_platform toy_library (fixed_routes true) requests (new toy_config) in
      (counter tokens_issued_total h.metrics ≡ replied (Solve is_issued) replies)
      × (counter puzzles_solved_total h.metrics ≡ replied (Solve is_solved) replies)
      × (counter attempts h.metrics ≡ replied (Solve is_solved) replies)
      × (counter success_verifications h.metrics ≡ replied (Verify 200) replies)
      × (counter limited_verifications h.metrics ≡ replied (Verify 429) replies))
serve_all-counters_example =
    serve_all-counters toy_platform toy_library (fixed_routes true) toy_config requests

abbrev verifications : List Request
verifications =
    request (codes "/auth/verify")
    ∷ request (codes "/auth/solve")
    ∷ request (codes "/auth/verify")
    ∷ request (codes "/auth/verify")
    ∷ []

-- three requests present the token, and two of them are let through
let_through-min_example :
    let_through toy_platform toy_library
      (fixed_routes true)
      (codes "alice")
      toy_config.jwt_secret
      verifications
      (new toy_config)
    ≡ min 3 2
unfolding presented_to presents bytes_eq proxy_common.Common.GoMap.lookup
    proxy_common.Auth.Handlers.Verify.request_id proxy_common.Auth.Handlers.request_token
    proxy_common.Auth.Jwt.verify
let_through-min_example =
    let_through-min toy_platform toy_library (fixed_routes true) toy_config (codes "alice") 2
      verifications (λ e. cc e) refl (omega arith)
