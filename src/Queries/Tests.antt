-- ===== src/Queries/Tests.antt =====
-- Three statements on one connection.
use swiftpaste.Prelude.{◌≡◌, some, List, [], ◌∷◌}
use swiftpaste.Prelude.Split.{cut_at}
use swiftpaste.Core.Config.{defaults}
use swiftpaste.Queries.{DbMetrics, Casing, operation, Execution, executed, refused, run}
use swiftpaste.Queries.Observed.{left_starts, latencies, slow_ones, queries_observed}

abbrev casing : Casing
casing = record { lstrip = λ t. t; upper = λ t. t }

abbrev metrics : DbMetrics
metrics = record { db_query_latency = []; db_slow_queries = [] }

abbrev statements : List Execution
statements =
    executed "SELECT 1" 10 15 ∷ refused "INSERT INTO t" 20 ∷ executed "SELECT 2" 30 330 ∷ []

queries_observed_example :
    run defaults casing statements ([], metrics)
    ≡ some (
      20 ∷ [],
      record {
        db_query_latency = ("SELECT", 300) ∷ ("SELECT", 5) ∷ [];
        db_slow_queries = "SELECT" ∷ [];
      },
    )
unfolding left_starts latencies slow_ones operation cut_at
queries_observed_example = queries_observed defaults casing statements [] metrics
