-- ===== src/Auth/Metrics.antt =====
-- auth/metrics/metrics.go: the two recorders, and what they make of the calls that the handlers log.
pub mod Outcomes
use proxy_common.Common.{List, [], ◌∷◌, ◌++◌}
use proxy_common.Common.Bytes.{Bytes, codes}
use proxy_common.Common.Samples.{Vec, Series, Sample, inc}
use proxy_common.Auth.Handlers.{
  Metric, puzzle_attempt, token_verification, puzzles_solved, tokens_issued,
}

-- The interface `MetricsRecorder`: what each method calls of the package `prometheus`.
pub record MetricsRecorder : Type 0 where
  pub record_puzzle_attempt : Bytes → List Sample
  pub record_token_verification : Bytes → List Sample
  pub increment_tokens_issued : List Sample
  pub increment_puzzles_solved : List Sample

-- the name of a global metric, whose options are its name alone
abbrev global : Bytes → List Bytes → Vec
global name label_names = record {
  namespace = [];
  subsystem = [];
  name = name;
  label_names = label_names;
}

abbrev pub tokens_issued_total : Series
tokens_issued_total = record { vec = global (codes "auth_tokens_issued_total") []; labels = [] }

abbrev pub puzzles_solved_total : Series
puzzles_solved_total = record { vec = global (codes "auth_puzzles_solved_total") []; labels = [] }

abbrev pub puzzle_attempts_total : Bytes → Series
puzzle_attempts_total status = record {
  vec = global (codes "auth_puzzle_attempts_total") (codes "status" ∷ []);
  labels = status ∷ [];
}

abbrev pub token_verifications_total : Bytes → Series
token_verifications_total status = record {
  vec = global (codes "auth_token_verifications_total") (codes "status" ∷ []);
  labels = status ∷ [];
}

-- `NoopMetrics`
unfoldable pub new_noop_metrics : MetricsRecorder
new_noop_metrics = record {
  record_puzzle_attempt = λ status. [];
  record_token_verification = λ status. [];
  increment_tokens_issued = [];
  increment_puzzles_solved = [];
}

-- `PrometheusMetrics`, whose fields are the global metrics; the functions of the same names do
-- what its methods do
unfoldable pub new_prometheus_metrics : MetricsRecorder
new_prometheus_metrics = record {
  record_puzzle_attempt = λ status. inc (puzzle_attempts_total status) ∷ [];
  record_token_verification = λ status. inc (token_verifications_total status) ∷ [];
  increment_tokens_issued = inc tokens_issued_total ∷ [];
  increment_puzzles_solved = inc puzzles_solved_total ∷ [];
}

-- the method that a logged call names
unfoldable pub report : MetricsRecorder → Metric → List Sample
report recorder (puzzle_attempt status) = recorder.record_puzzle_attempt status
report recorder (token_verification status) = recorder.record_token_verification status
report recorder tokens_issued = recorder.increment_tokens_issued
report recorder puzzles_solved = recorder.increment_puzzles_solved

unfoldable pub samples : MetricsRecorder → List Metric → List Sample
unfolding report
samples recorder [] = []
samples recorder (metric ∷ metrics) = report recorder metric ++ samples recorder metrics
