-- ===== src/Jobs/Queue.antt =====
-- app/jobs/queue.py and app/jobs/scheduler.py.
use Prim.Native.Nat.{◌/◌}
use swiftpaste.Prelude.{
  ℕ, ◌+◌, String, Bool, false, ◌||◌, Option, none, some, List, [], ◌∷◌, ◌++◌, ◌==◌, if◌then◌else◌,
}
use swiftpaste.Prelude.Int.{ℤ}
use swiftpaste.Core.Config.{Settings}
use swiftpaste.Jobs.Store.{Job, JobPayload, no_fields, JobStore}

-- `int(time.time())` of a clock in milliseconds.
abbrev pub seconds : ℕ → ℕ
seconds now = now / 1000

module _ (R : JobStore) where
  open R use {Store, Text, dumps, mentions, items, lpush, zadd, zrem, zrange, zrangebyscore}

  -- The job dict; the id is a fresh uuid4.
  abbrev pub new_job : String → ℕ → String → JobPayload → ℤ → Job
  new_job uuid now job_type payload retries = record {
    id = uuid;
    job_type = job_type;
    payload = payload;
    retries = retries;
    created_at = seconds now;
    processing_started_at = none;
  }

  unfoldable pub enqueue : Settings → String → ℕ → String → JobPayload → ℕ → ℤ → Store → Store
  enqueue settings uuid now job_type payload delay retries s =
      let job_data = dumps (new_job uuid now job_type payload retries) in
      if delay == 0 then lpush settings.queue job_data s else zadd job_data (seconds now + delay) s

  -- The pipeline: each job leaves the sorted set and enters the queue.
  unfoldable pub move_all : Settings → List Text → Store → Store
  move_all settings [] s = s
  move_all settings (job_data ∷ jobs) s =
      move_all settings jobs (lpush settings.queue job_data (zrem job_data s))

  -- One round of the loop; Redis runs the pipeline as one transaction.
  unfoldable pub dispatch_scheduled_jobs : Settings → ℕ → Store → Store
  unfolding move_all
  dispatch_scheduled_jobs settings now s = move_all settings (zrangebyscore (seconds now) s) s

  -- `any(job_type in job for job in all_jobs)`
  unfoldable pub any_mentions : String → List Text → Bool
  any_mentions job_type [] = false
  any_mentions job_type (job ∷ jobs) = mentions job_type job || any_mentions job_type jobs

  -- `payload or {}`
  abbrev pub or_empty : Option JobPayload → JobPayload
  or_empty none = no_fields
  or_empty (some payload) = payload

  unfoldable pub enqueue_initial_job :
      Settings → String → ℕ → String → Option JobPayload → ℤ → Store → Store
  unfolding any_mentions enqueue
  enqueue_initial_job settings uuid now job_type payload retries s =
      let queue_jobs = items s settings.queue in
      let scheduled_jobs = zrange s in
      let all_jobs = queue_jobs ++ scheduled_jobs in
      if any_mentions job_type all_jobs
      then s
      else enqueue settings uuid now job_type (or_empty payload) 0 retries s
