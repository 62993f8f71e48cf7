-- ===== src/Jobs/Conserved.antt =====
-- No accepted job is lost, however the processes interleave.
use mathlib.Core.Path.{subst}
use text.Mathlib.TextPositions.{eq_refl}
use swiftpaste.Prelude.{ℕ, String, refl, ap, ◌∷◌, arith, eq_iff, inl, inr}
use swiftpaste.Prelude.Int.{ℤ}
use swiftpaste.Core.Config.{Settings}
use swiftpaste.Jobs.Store.{JobPayload, JobStore}
use swiftpaste.Jobs.Queue.{new_job, enqueue}
use swiftpaste.Jobs.Retry.{HasDistinctLists}
use swiftpaste.Jobs.Interleaved.{
  idle, dropped, requeueing, System, put, in_memory_only, with_one_retry_less, stamped, Step, takes,
  discards, returns, raises, acknowledges, drops, pushes, recovers, skips, removes, requeues,
  recovery_raises, recovered, reads_due, moves, enqueues, dies, Steps, at_start, later,
}
use swiftpaste.Jobs.Places.{places-brpoplpush, places-enqueue, places-enqueue_self, places-move_all}
use swiftpaste.Jobs.Kept.{
  IsHeld, IsKept, IsHeld-here, IsKept-in_redis, IsKept-after_lrem, IsKept-after_lpush, known_list,
  free_of, job_of, same_places,
}

module _ (R : JobStore) (settings : Settings) (lists : HasDistinctLists settings) where
  open R use {Store, Text, text_eq, text_eq_iff, dumps, loads, lpush, lrem}

  -- A step keeps every job that was kept.
  Step-IsKept :
      (id : String) {x y : System R}
      → Step R settings x y
      → IsKept R settings lists id x
      → IsKept R settings lists id y
  Step-IsKept id {x} (takes k at) kept =
      IsKept-in_redis R settings lists id x k _ _ (free_of R settings lists x k at refl)
        (λ u there. rw (places-brpoplpush R settings lists x.store u) there) kept
  Step-IsKept id {x} (discards k t at bad) kept =
      IsKept-after_lrem R settings lists id x k idle t x.finished
        (free_of R settings lists x k at refl) (λ (job, parsed, _). absurd (cc (bad, parsed)))
        (λ done. done) kept
  Step-IsKept id {x} (returns k t at) kept =
      IsKept-in_redis R settings lists id x k _ x.store (free_of R settings lists x k at refl)
        (same_places R settings lists x.store) kept
  Step-IsKept id {x} (raises k t at) kept =
      IsKept-in_redis R settings lists id x k _ x.store (free_of R settings lists x k at refl)
        (same_places R settings lists x.store) kept
  Step-IsKept id {x} (acknowledges k t job at parsed) kept =
      IsKept-after_lrem R settings lists id x k idle t (job.id ∷ x.finished)
        (free_of R settings lists x k at refl)
        (λ of.
          inr (inr (rw ((eq_iff job.id id).1 (job_of R settings lists id t job parsed of)) refl)))
        (λ done. ground (arith, done)) kept
  Step-IsKept id {x} (drops k t job at parsed) kept =
      IsKept-after_lrem R settings lists id x k _ t x.finished
        (free_of R settings lists x k at refl)
        (λ of. inr (
          inl (
            k,
            subst
                (λ i.
                  IsHeld R settings lists i
                    (put R k (dropped (with_one_retry_less R settings job)) x.hands k))
                (job_of R settings lists id t job parsed of)
                (IsHeld-here R settings lists k (dropped (with_one_retry_less R settings job))
                  x.hands refl),
          )))
        (λ done. done) kept
  Step-IsKept id {x} (pushes k job at) kept =
      IsKept-after_lpush R settings lists id x k idle _ job (known_list R settings lists job)
        (ap (in_memory_only R) at) kept
  Step-IsKept id {x} (recovers k t at) kept =
      IsKept-in_redis R settings lists id x k _ x.store (free_of R settings lists x k at refl)
        (same_places R settings lists x.store) kept
  Step-IsKept id {x} (skips k now t u ts job at parsed fresh) kept =
      IsKept-in_redis R settings lists id x k _ x.store (free_of R settings lists x k at refl)
        (same_places R settings lists x.store) kept
  Step-IsKept id {x} (removes k now t u ts job at parsed stuck) kept =
      IsKept-after_lrem R settings lists id x k _ u x.finished
        (free_of R settings lists x k at refl)
        (λ of. inr (
          inl (
            k,
            subst
                (λ i.
                  IsHeld R settings lists i
                    (put R k (requeueing t (stamped R settings now job) ts) x.hands k))
                (job_of R settings lists id u job parsed of)
                (IsHeld-here R settings lists k (requeueing t (stamped R settings now job) ts)
                  x.hands refl),
          )))
        (λ done. done) kept
  Step-IsKept id {x} (requeues k t job ts at) kept =
      IsKept-after_lpush R settings lists id x k _ settings.queue job (inl (eq_refl settings.queue))
        (ap (in_memory_only R) at) kept
  Step-IsKept id {x} (recovery_raises k t u ts at bad) kept =
      IsKept-in_redis R settings lists id x k _ x.store (free_of R settings lists x k at refl)
        (same_places R settings lists x.store) kept
  Step-IsKept id {x} (recovered k t at) kept =
      IsKept-in_redis R settings lists id x k _ x.store (free_of R settings lists x k at refl)
        (same_places R settings lists x.store) kept
  Step-IsKept id {x} (reads_due k now at) kept =
      IsKept-in_redis R settings lists id x k _ x.store (free_of R settings lists x k at refl)
        (same_places R settings lists x.store) kept
  Step-IsKept id {x} (moves k ts at) kept =
      IsKept-in_redis R settings lists id x k idle _ (free_of R settings lists x k at refl)
        (places-move_all R settings lists ts x.store) kept
  Step-IsKept id {x} (enqueues uuid now job_type payload delay retries) (inl (t, of, there)) = inl (
    t,
    of,
    places-enqueue R settings lists uuid now job_type payload delay retries x.store t there,
  )
  Step-IsKept id {x} (enqueues uuid now job_type payload delay retries) (inr other) = inr other
  Step-IsKept id {x} (dies k free) kept =
      IsKept-in_redis R settings lists id x k idle x.store free
        (same_places R settings lists x.store) kept

  Steps-IsKept :
      (id : String) {x y : System R}
      → Steps R settings x y
      → IsKept R settings lists id x
      → IsKept R settings lists id y
  Steps-IsKept id at_start kept = kept
  Steps-IsKept id (later steps step) kept = Step-IsKept id step (Steps-IsKept id steps kept)

  -- A job that has been enqueued, at once or with a delay, is never lost. Whatever any number of workers,
  -- recoveries and schedulers do from there, in any order of their commands, and wherever one of them
  -- dies but between the removal of a job from the processing list and its push: a job with its id is in
  -- the queue, processed, failed or scheduled, or a process is about to push it, or its task has returned.
  pub no_job_is_lost :
      (uuid : String) (now : ℕ) (job_type : String) (payload : JobPayload) (delay : ℕ) (retries : ℤ)
      (x : System R) {y : System R}
      → Steps R settings
          (record x { store = enqueue R settings uuid now job_type payload delay retries x.store })
          y
      → IsKept R settings lists uuid y
  no_job_is_lost uuid now job_type payload delay retries x steps = Steps-IsKept uuid steps (
      inl (
        dumps (new_job R uuid now job_type payload retries),
        (new_job R uuid now job_type payload retries, R.loads-dumps _, refl),
        places-enqueue_self R settings lists uuid now job_type payload delay retries x.store,
      ))
