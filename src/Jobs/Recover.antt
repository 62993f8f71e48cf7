-- ===== src/Jobs/Recover.antt =====
-- `recover_stuck_jobs` of app/jobs/tasks.py. The clock is in milliseconds.
use swiftpaste.Prelude.{Bool, ℕ, ◌+◌, ◌*◌, String, none, some, List, [], ◌∷◌, ltb, if◌then◌else◌}
use swiftpaste.Prelude.Int.{pos}
use swiftpaste.Core.Config.{Settings}
use swiftpaste.Core.Errors.{Result, ok, err, other}
use swiftpaste.Jobs.Store.{Job, no_fields, JobStore}
use swiftpaste.Jobs.Queue.{enqueue}
use swiftpaste.Jobs.Worker.{Handler}

-- `job.get("processing_started_at", job["created_at"])`
abbrev pub started_at : Job → ℕ
started_at job = elim job.processing_started_at [ none ↦ job.created_at * 1000 | some t ↦ t ]

-- `now - started > 300`
abbrev pub is_stuck : ℕ → Job → Bool
is_stuck now job = ltb (started_at job + 300000) now

module _ (R : JobStore) where
  open R use {Store, Text, dumps, loads, items, lpush, lrem}

  abbrev pub requeue : Settings → ℕ → Text → Job → Store → Store
  requeue settings now job_data job s =
      lpush settings.queue (dumps (record job { processing_started_at = some now }))
        (lrem settings.processing job_data s)

  -- The loop over the jobs that LRANGE has listed; a text that does not parse raises.
  unfoldable pub recover_loop : Settings → ℕ → List Text → Store → Result (Unit {0}) × Store
  recover_loop settings now [] s = (ok tt, s)
  recover_loop settings now (job_data ∷ jobs) s = elim (loads job_data) [
    | none ↦ (err (other "JSONDecodeError"), s)
    | some job ↦
        recover_loop settings now jobs
          (if is_stuck now job then requeue settings now job_data job s else s)
  ]

  unfoldable pub recover_stuck_jobs : Settings → String → ℕ → Store → Result (Unit {0}) × Store
  unfolding recover_loop enqueue
  recover_stuck_jobs settings uuid now s =
      let (looped, s') = recover_loop settings now (items s settings.processing) s in
      elim looped [
        | err e ↦ (err e, s')
        | ok _ ↦ (
          ok tt,
          enqueue R settings uuid now "recover_stuck_jobs" no_fields
              settings.recover_stuck_jobs_delay_seconds (pos 3) s',
        )
      ]

  -- The task as the worker calls it: it ignores its payload.
  unfoldable pub recover_task : (W : Type 0) → Settings → String → ℕ → Handler R W
  recover_task W settings uuid now payload (s, w) =
      let (r, s') = recover_stuck_jobs settings uuid now s in (r, (s', w))
