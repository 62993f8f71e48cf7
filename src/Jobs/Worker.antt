-- ===== src/Jobs/Worker.antt =====
-- One round of the loop in app/jobs/worker.py. A handler runs on the Redis store and on the rest of
-- the world, and may raise.
use swiftpaste.Prelude.{ℕ, none, some, if◌then◌else◌, str_eq}
use swiftpaste.Prelude.Int.{pos, ◌-ℤ◌, ltb_ℤ}
use swiftpaste.Core.Config.{Settings}
use swiftpaste.Core.Errors.{Result, ok, err, other}
use swiftpaste.Jobs.Store.{Job, JobPayload, JobStore}

module _ (R : JobStore) where
  open R use {Store, Text, dumps, lpush, lrem}

  -- The `except` branch: one retry less, or the list of failed jobs.
  unfoldable pub job_failed : Settings → Text → Job → Store → Store
  job_failed settings job_data job s =
      let retries = job.retries -ℤ pos 1 in
      let job' : Job = record job { retries = retries } in
      let s' = lrem settings.processing job_data s in
      if ltb_ℤ (pos 0) retries
      then lpush settings.queue (dumps job') s'
      else lpush settings.failed (dumps job') s'

module _ (R : JobStore) (W : Type 0) where
  open R use {Store, Text, dumps, loads, lpush, lrem, brpoplpush}

  abbrev pub Handler : Type 0
  Handler = JobPayload → Store × W → Result (Unit {0}) × (Store × W)

  -- `TASKS`
  pub record Tasks : Type 0 where
    pub index_snippet : Handler
    pub cleanup_expired : Handler
    pub remove_index : Handler
    pub recover_stuck_jobs : Handler
    pub flush_views_to_db : Handler

module _ (R : JobStore) (W : Type 0) where
  open R use {Store, Text, dumps, loads, lpush, lrem, brpoplpush}

  -- `TASKS[job_type]`, then the call; an unknown type raises KeyError.
  unfoldable pub run_task : Tasks R W → Job → Store × W → Result (Unit {0}) × (Store × W)
  run_task tasks job world =
      if str_eq job.job_type "index_snippet"
      then tasks.index_snippet job.payload world
      else if str_eq job.job_type "cleanup_expired"
      then tasks.cleanup_expired job.payload world
      else if str_eq job.job_type "remove_snippet_index"
      then tasks.remove_index job.payload world
      else if str_eq job.job_type "recover_stuck_jobs"
      then tasks.recover_stuck_jobs job.payload world
      else if str_eq job.job_type "flush_views_to_db"
      then tasks.flush_views_to_db job.payload world
      else (err (other "KeyError"), world)

  -- After the handler has returned or raised.
  unfoldable pub settle : Settings → Text → Job → Result (Unit {0}) × (Store × W) → Store × W
  unfolding job_failed
  settle settings job_data job (ok _, (s, w)) = (lrem settings.processing job_data s, w)
  settle settings job_data job (err _, (s, w)) = (job_failed R settings job_data job s, w)

  -- What the round does with the text that BRPOPLPUSH has handed over.
  unfoldable pub process : Settings → Tasks R W → Text → Store × W → Store × W
  process settings tasks job_data (s, w) = elim (loads job_data) [
    | none ↦ (lrem settings.processing job_data s, w)
    | some job ↦ settle settings job_data job (run_task tasks job (s, w))
  ]

  unfoldable pub worker_round : Settings → Tasks R W → Store × W → Store × W
  worker_round settings tasks (s, w) =
      let (popped, s') = brpoplpush settings.queue settings.processing s in
      elim popped [ none ↦ (s', w) | some job_data ↦ process settings tasks job_data (s', w) ]

  unfoldable pub worker : Settings → Tasks R W → ℕ → Store × W → Store × W
  worker settings tasks ℕ.zero world = world
  worker settings tasks (ℕ.suc rounds) world =
      worker settings tasks rounds (worker_round settings tasks world)
