-- ===== src/Views/Tests.antt =====
-- A flush of the counters of a store in memory.
use mathlib.Core.Option
use swiftpaste.Prelude.{String, ◌≡◌, refl, none, some, [], ◌∷◌, str_eq, if◌then◌else◌}
use swiftpaste.Core.Config.{defaults}
use swiftpaste.Search.{has, distinct}
use swiftpaste.Jobs.Model.{Memory, memory}
use swiftpaste.Snippets.Model.{in_memory}
use swiftpaste.Snippets.Examples.{world, world-IsConsistent}
use swiftpaste.Snippets.Consistent.{IsConsistent}
use swiftpaste.Prelude.Split.{last_part, cut_at}
use swiftpaste.Snippets.Create.{create_snippet, insert_rows, created_response}
use swiftpaste.Views.Model.{Redis, redis, counter}
use swiftpaste.Views.{increments, flush_views_to_db}
use swiftpaste.Views.Gains.{viewed, pending}
use swiftpaste.Views.Flush.{flush_accounts}

-- Three views of the snippet, and one more while the flush runs.
abbrev counted : Redis
counted = record {
  names = "snippet:views:aaaaaaaa" ∷ [];
  counters = λ k. if str_eq "snippet:views:aaaaaaaa" k then some 3 else none;
}

abbrev flushed : in_memory.Db × Redis × Memory
flushed =
    flush_views_to_db redis in_memory memory defaults "u" 9 ("aaaaaaaa" ∷ [])
      (world.db, counted, world.jobs)

flush_accounts_example :
    ((k : String)
      → in_memory.by_short_id flushed.0 k
        ≡ Option.map
            (viewed (pending redis ("snippet:views:aaaaaaaa" ∷ []) counted k))
            (in_memory.by_short_id world.db k))
    × IsConsistent in_memory flushed.0
    × ((k : String)
        → counter k flushed.1 ≡ (
            if has k ("snippet:views:aaaaaaaa" ∷ [])
            then none
            else counter k (increments redis ("aaaaaaaa" ∷ []) counted)))
unfolding distinct
flush_accounts_example =
    flush_accounts redis in_memory memory defaults "u" 9 ("aaaaaaaa" ∷ []) world.db counted
      world.jobs world-IsConsistent

-- The row gets the three views; the late one is lost.
flushed_views :
    (Option.map (λ x. x.views) (in_memory.by_short_id flushed.0 "aaaaaaaa") ≡ some 3)
    × (counter "snippet:views:aaaaaaaa" flushed.1 ≡ none)
unfolding flush_views_to_db create_snippet insert_rows created_response last_part cut_at distinct
flushed_views = (refl, refl)
