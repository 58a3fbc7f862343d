-- ===== src/Tests/Metrics.antt =====
-- Runs of the cache metrics (cache/metrics/metrics.go).
use proxy_common.Common.{◌+◌, ◌≡◌, none, List, [], ◌∷◌, pos, All}
use proxy_common.Common.Bytes.{Bytes, codes}
use proxy_common.Cache.Metrics.{Config}
use proxy_common.Cache.Metrics.Calls.{Call, hit, miss, stored, perform_all}
use proxy_common.Cache.Metrics.Accounts.{requests_of, hits_of, misses_of, perform_all-accounts}
use proxy_common.Cache.Metrics.Accounts
use proxy_common.Cache.Metrics.Labels.{WellLabelled, perform_all-WellLabelled}
use proxy_common.Cache.Metrics.Labels

abbrev defaults : Config
defaults = record { namespace = []; subsystem = [] }

abbrev methods : List Bytes
methods = codes "eth_call" ∷ []

abbrev calls : List Call
calls =
    hit (codes "json") (codes "l1") (codes "eth") (codes "main") (codes "eth_call") (pos 5)
    ∷ miss (codes "json") (codes "eth") (codes "main") (codes "eth_logs")
    ∷ stored (codes "l1") (codes "json") [] [] (pos 7)
    ∷ []

abbrev labels : List Bytes
labels = codes "json" ∷ codes "miss" ∷ codes "eth:main" ∷ codes "other" ∷ []

perform_all-accounts_example :
    requests_of defaults none labels (perform_all (Accounts.m defaults none labels) calls)
    ≡ hits_of defaults none labels (perform_all (Accounts.m defaults none labels) calls)
      + misses_of defaults none labels (perform_all (Accounts.m defaults none labels) calls)
perform_all-accounts_example = perform_all-accounts defaults none labels calls

perform_all-WellLabelled_example :
    All (WellLabelled methods) (perform_all (Labels.m defaults methods) calls)
perform_all-WellLabelled_example = perform_all-WellLabelled defaults methods calls
