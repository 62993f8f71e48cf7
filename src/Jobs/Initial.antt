-- ===== src/Jobs/Initial.antt =====
-- Starts of the scheduler: `enqueue_initial_job` for one type of job, again and again.
use swiftpaste.Prelude.{ℕ, String, Bool, Option, List, [], ◌∷◌, ◌++◌}
use swiftpaste.Prelude.Int.{ℤ}
use swiftpaste.Core.Config.{Settings}
use swiftpaste.Jobs.Store.{JobPayload, JobStore}
use swiftpaste.Jobs.Queue.{any_mentions, enqueue_initial_job}

module _ (R : JobStore) (settings : Settings) (job_type : String) (payload : Option JobPayload)
    (retries : ℤ) where
  open R use {Store, dumps, items, zrange, lpush}

  -- One start for each id and time.
  pub starts : List (String × ℕ) → Store → Store
  starts [] s = s
  starts ((uuid, now) ∷ later) s =
      starts later (enqueue_initial_job R settings uuid now job_type payload retries s)

  abbrev pub is_there : Store → Bool
  is_there s = any_mentions R job_type (items s settings.queue ++ zrange s)
