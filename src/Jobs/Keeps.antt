-- ===== src/Jobs/Keeps.antt =====
-- What holds of the world around the worker of app/jobs/worker.py when every task keeps it.
use swiftpaste.Prelude.{ℕ, zero, suc, str_eq, Bool-cases, Option-cases, inl, inr}
use swiftpaste.Core.Config.{Settings}
use swiftpaste.Core.Errors.{Result, ok, err, other}
use swiftpaste.Jobs.Store.{Job, JobPayload, JobStore}
use swiftpaste.Jobs.Worker.{Handler, Tasks, run_task, settle, process, worker_round, worker}

-- What holds of each task's outcome, and of the KeyError, holds of the outcome of a job.
pub run_task-dispatch :
    (R : JobStore) (W : Type 0) (tasks : Tasks R W) (job : Job) (x : R.Store × W)
    (Q : Result (Unit {0}) × (R.Store × W) → Type 0)
    → Q (tasks.index_snippet job.payload x)
    → Q (tasks.cleanup_expired job.payload x)
    → Q (tasks.remove_index job.payload x)
    → Q (tasks.recover_stuck_jobs job.payload x)
    → Q (tasks.flush_views_to_db job.payload x)
    → Q (err (other "KeyError"), x)
    → Q (run_task R W tasks job x)
unfolding run_task
run_task-dispatch R W tasks job x Q index cleanup remove recover flush unknown =
    elim (Bool-cases (str_eq job.job_type "index_snippet")) [
      | inl a ↦ rw a index
      | inr a ↦ elim (Bool-cases (str_eq job.job_type "cleanup_expired")) [
        | inl b ↦ rw (a, b) cleanup
        | inr b ↦ elim (Bool-cases (str_eq job.job_type "remove_snippet_index")) [
          | inl c ↦ rw (a, b, c) remove
          | inr c ↦ elim (Bool-cases (str_eq job.job_type "recover_stuck_jobs")) [
            | inl d ↦ rw (a, b, c, d) recover
            | inr d ↦ elim (Bool-cases (str_eq job.job_type "flush_views_to_db")) [
              | inl e ↦ rw (a, b, c, d, e) flush
              | inr e ↦ rw (a, b, c, d, e) unknown
            ]
          ]
        ]
      ]
    ]

module _ (R : JobStore) (settings : Settings) (W : Type 0) (tasks : Tasks R W)
    (P : W → Type 0) where
  open R use {Store, Text}

  abbrev Keeps : Handler R W → Type 0
  Keeps handler = (payload : JobPayload) (s : Store) (w : W) → P w → P (handler payload (s, w)).1.1

  pub record AllKeep : Type 0 where
    pub index : Keeps tasks.index_snippet
    pub cleanup : Keeps tasks.cleanup_expired
    pub remove : Keeps tasks.remove_index
    pub recover : Keeps tasks.recover_stuck_jobs
    pub flush : Keeps tasks.flush_views_to_db

  module _ (all : AllKeep) where
    run_task-keeps : (job : Job) (s : Store) (w : W) → P w → P (run_task R W tasks job (s, w)).1.1
    run_task-keeps job s w h =
        let p = job.payload in
        run_task-dispatch R W tasks job (s, w) (λ x. P x.1.1) (all.index p s w h)
          (all.cleanup p s w h) (all.remove p s w h) (all.recover p s w h) (all.flush p s w h) h

    settle-keeps :
        (t : Text) (job : Job) (p : Result (Unit {0}) × (Store × W))
        → P p.1.1
        → P (settle R W settings t job p).1
    unfolding settle
    settle-keeps t job (ok _, (s, w)) h = h
    settle-keeps t job (err _, (s, w)) h = h

    worker_round-keeps : (s : Store) (w : W) → P w → P (worker_round R W settings tasks (s, w)).1
    unfolding worker_round process
    worker_round-keeps s w h =
        let (o, s') = R.brpoplpush settings.queue settings.processing s in
        elim (Option-cases (R.brpoplpush settings.queue settings.processing s).0) [
          | inl empty ↦ rw (empty, worker_round) h
          | inr (t, here) ↦ elim (Option-cases (R.loads t)) [
            | inl bad ↦ rw (here, bad, worker_round, process) h
            | inr (job, parsed) ↦
                rw (here, parsed, worker_round, process)
                  (settle-keeps t job (run_task R W tasks job (s', w)) (run_task-keeps job s' w h))
          ]
        ]

    -- What every task keeps, the worker keeps.
    pub worker-keeps :
        (rounds : ℕ) (s : Store) (w : W) → P w → P (worker R W settings tasks rounds (s, w)).1
    unfolding worker
    worker-keeps zero s w h = h
    worker-keeps (suc n) s w h =
        let (s', w') = worker_round R W settings tasks (s, w) in
        worker-keeps n s' w' (worker_round-keeps s w h)
