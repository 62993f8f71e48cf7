-- ===== src/Queries/Observed.antt =====
-- What is observed of the statements of a connection.
use mathlib.Core.List.{append_assoc}
use swiftpaste.Prelude.{
  ℕ, ◌-◌, String, ◌≡◌, refl, some, List, [], ◌∷◌, ◌++◌, ltb, if◌then◌else◌, Bool-cases, inl, inr,
}
use swiftpaste.Core.Config.{Settings}
use swiftpaste.Queries.{
  DbMetrics, Casing, operation, after_cursor_execute, Execution, executed, refused, run,
}

-- The starts of the refused statements, the last one first.
unfoldable pub left_starts : List Execution → List ℕ
left_starts [] = []
left_starts (executed statement start end ∷ es) = left_starts es
left_starts (refused statement start ∷ es) = left_starts es ++ (start ∷ [])

-- Each statement that was executed with its own time, the last one first.
unfoldable pub latencies : Casing → List Execution → List (String × ℕ)
latencies casing [] = []
latencies casing (executed statement start end ∷ es) =
    latencies casing es ++ ((operation casing statement, end - start) ∷ [])
latencies casing (refused statement start ∷ es) = latencies casing es

-- Those that took longer than the threshold.
unfoldable pub slow_ones : Settings → Casing → List Execution → List String
slow_ones settings casing [] = []
slow_ones settings casing (executed statement start end ∷ es) =
    slow_ones settings casing es
    ++ (if ltb settings.slow_query_threshold (end - start)
        then operation casing statement ∷ []
        else [])
slow_ones settings casing (refused statement start ∷ es) = slow_ones settings casing es

-- Each statement that was executed is observed once, with its own time and under its operation, and counted
-- as slow if it took longer than the threshold, also after statements that were refused; of each refused one
-- the start stays on the connection for good.
pub queries_observed :
    (settings : Settings) (casing : Casing) (es : List Execution) (starts : List ℕ) (m : DbMetrics)
    → run settings casing es (starts, m)
      ≡ some (
        left_starts es ++ starts,
        record {
          db_query_latency = latencies casing es ++ m.db_query_latency;
          db_slow_queries = slow_ones settings casing es ++ m.db_slow_queries;
        },
      )
unfolding run left_starts latencies slow_ones after_cursor_execute
queries_observed settings casing [] starts m = refl
queries_observed settings casing (refused statement start ∷ es) starts m =
    rw (append_assoc (left_starts es) (start ∷ []) starts)
      (queries_observed settings casing es (start ∷ starts) m)
queries_observed settings casing (executed statement start end ∷ es) starts m =
    let seen : String × ℕ = (operation casing statement, end - start) in
    let name = operation casing statement in
    let assoc = append_assoc (latencies casing es) (seen ∷ []) m.db_query_latency in
    elim (Bool-cases (ltb settings.slow_query_threshold (end - start))) [
      | inl slow ↦
          rw
            (slow, assoc, append_assoc (slow_ones settings casing es) (name ∷ []) m.db_slow_queries)
            (queries_observed settings casing es starts (record {
              db_query_latency = seen ∷ m.db_query_latency;
              db_slow_queries = name ∷ m.db_slow_queries;
            }))
      | inr quick ↦
          rw (quick, assoc, append_assoc (slow_ones settings casing es) [] m.db_slow_queries)
            (queries_observed settings casing es starts
              (record m { db_query_latency = seen ∷ m.db_query_latency }))
    ]
