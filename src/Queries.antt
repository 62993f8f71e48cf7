-- ===== src/Queries.antt =====
-- app/metrics/db_metrics.py: the two listeners that SQLAlchemy calls around each statement on a connection.
pub mod Observed
mod Tests
use Prim.Native.String
use swiftpaste.Prelude.{ℕ, ◌-◌, String, Option, none, some, List, [], ◌∷◌, ltb, if◌then◌else◌}
use swiftpaste.Prelude.Split.{cut_at}
use swiftpaste.Core.Config.{Settings}

-- What the histogram and the counter have been told, the latest first.
pub record DbMetrics : Type 0 where
  pub db_query_latency : List (String × ℕ)
  pub db_slow_queries : List String

-- `str.lstrip` and `str.upper`
pub record Casing : Type 0 where
  pub lstrip : String → String
  pub upper : String → String

-- `split(" ", 1)[0]`
abbrev pub first_word : String → String
first_word text = elim (cut_at b' ' text) [ none ↦ text | some (word, _) ↦ word ]

-- `statement.lstrip().split(" ", 1)[0].upper()`
unfoldable pub operation : Casing → String → String
operation casing statement = casing.upper (first_word (casing.lstrip statement))

-- `conn.info["query_start_time"]`, the last element first; a connection without it has none.
abbrev pub before_cursor_execute : ℕ → List ℕ → List ℕ
before_cursor_execute now query_start_time = now ∷ query_start_time

-- `none` is the error of `pop` on no element.
unfoldable pub after_cursor_execute :
    Settings → Casing → String → ℕ → List ℕ × DbMetrics → Option (List ℕ × DbMetrics)
unfolding operation
after_cursor_execute settings casing statement now ([], m) = none
after_cursor_execute settings casing statement now (start_time ∷ query_start_time, m) =
    let duration = now - start_time in
    let timed : DbMetrics = record m {
      db_query_latency = (operation casing statement, duration) ∷ m.db_query_latency;
    } in
    some (
      query_start_time,
      if ltb settings.slow_query_threshold duration
          then record timed { db_slow_queries = operation casing statement ∷ m.db_slow_queries }
          else timed,
    )

-- A statement with the times of its two events. One that the database refuses has no second event.
pub data Execution : Type 0 where
  executed : String → ℕ → ℕ → Execution
  refused : String → ℕ → Execution

-- The statements of a connection, one after the other.
unfoldable pub run :
    Settings → Casing → List Execution → List ℕ × DbMetrics → Option (List ℕ × DbMetrics)
unfolding after_cursor_execute
run settings casing [] state = some state
run settings casing (refused statement start ∷ es) (starts, m) =
    run settings casing es (before_cursor_execute start starts, m)
run settings casing (executed statement start end ∷ es) (starts, m) =
    elim (after_cursor_execute settings casing statement end
      (before_cursor_execute start starts, m)) [
        | none ↦ none
        | some state ↦ run settings casing es state
      ]
