-- ===== src/Jobs/Stuck.antt =====
-- What `recover_stuck_jobs` does to the lists, and to the job that it runs as.
use mathlib.Core.List.{append_assoc}
use mathlib.Core.Path.{ap₂}
use text.Mathlib.TextPositions.{eq_refl}
use swiftpaste.Prelude.{
  ℕ, ◌+◌, String, ◌≡◌, ◌≢◌, refl, true, false, some, List, [], ◌∷◌, ◌++◌, arith, ap, ◌∙◌, sym,
  if◌then◌else◌, Bool-cases, inl, inr,
}
use swiftpaste.Prelude.Int.{pos}
use swiftpaste.Core.Config.{Settings}
use swiftpaste.Core.Errors.{Result, ok}
use swiftpaste.Prelude.Lists.{last, init}
use swiftpaste.Jobs.Store.{Job, no_fields, JobStore, remove_first}
use swiftpaste.Jobs.Queue.{seconds, new_job}
use swiftpaste.Jobs.Worker.{Tasks, run_task, settle, worker_round}
use swiftpaste.Jobs.Recover.{is_stuck, requeue, recover_loop, recover_stuck_jobs, recover_task}
use swiftpaste.Jobs.Retry.{HasDistinctLists, worker_round_picks}
use swiftpaste.Jobs.Running.{
  stuck_text, AllParse, AllRunning, running, requeued, stuck_text_of, restamped_of, AllRunning-snoc,
  remove_first_stuck,
}

module _ (R : JobStore) (settings : Settings) (lists : HasDistinctLists settings) (now : ℕ) where
  open R use {Store, Text, text_eq, loads, dumps, items}

  -- The three effects of the loop on a store.
  abbrev pub Recovered : Result (Unit {0}) × Store → List Text → List Text → Type 0
  Recovered (r, s) processing queue =
      (r ≡ ok tt) × (items s settings.processing ≡ processing) × (items s settings.queue ≡ queue)

  processing-requeue :
      (t : Text) (job : Job) (s : Store)
      → items (requeue R settings now t job s) settings.processing
        ≡ remove_first text_eq t (items s settings.processing)
  processing-requeue t job s = simp (R.items-lpush, R.items-lrem, lists.queue-processing, eq_refl)

  queue-requeue :
      (t : Text) (job : Job) (s : Store)
      → items (requeue R settings now t job s) settings.queue
        ≡ dumps (record job { processing_started_at = some now }) ∷ items s settings.queue
  queue-requeue t job s = simp (R.items-lpush, R.items-lrem, lists.processing-queue, eq_refl)

  recover_loop_step :
      (t : Text) (ts : List Text) (job : Job) (s : Store)
      → loads t ≡ some job
      → recover_loop R settings now (t ∷ ts) s
        ≡ recover_loop R settings now ts
            (if is_stuck now job then requeue R settings now t job s else s)
  unfolding recover_loop
  recover_loop_step t ts job s e = rw (e, recover_loop)

  recover_loop_lem :
      (ts ks : List Text) (s : Store)
      → AllParse R now ts
      → AllRunning R now ks
      → items s settings.processing ≡ ks ++ ts
      → Recovered
          (recover_loop R settings now ts s)
          (ks ++ running R now ts)
          (requeued R now ts (items s settings.queue))
  recover_loop_lem [] ks s parse run e = unfold recover_loop in (refl, e, refl)
  recover_loop_lem (t ∷ ts) ks s ((job, e₁), parse) run e = elim (Bool-cases (is_stuck now job)) [
    | inl stuck ↦
        let s₁ = requeue R settings now t job s in
        let is : stuck_text R now t ≡ true = stuck_text_of R now e₁ ∙ stuck in
        let left =
          processing-requeue t job s
          ∙ ap (remove_first text_eq t) e
          ∙ remove_first_stuck R now ks t ts run is in
        let rest = recover_loop_lem ts ks s₁ parse run left in
        rw (recover_loop_step t ts job s e₁, stuck, is, restamped_of R now e₁)
          (rest.0, rest.1, rest.2 ∙ ap (requeued R now ts) (queue-requeue t job s))
    | inr fine ↦
        let is : stuck_text R now t ≡ false = stuck_text_of R now e₁ ∙ fine in
        let rest =
          recover_loop_lem ts (ks ++ t ∷ []) s parse (AllRunning-snoc R now ks t run is)
            (e ∙ sym (append_assoc ks (t ∷ []) ts)) in
        rw (recover_loop_step t ts job s e₁, fine, is)
          (rest.0, rest.1 ∙ append_assoc ks (t ∷ []) (running R now ts), rest.2)
  ]

  zadd_self : (t : Text) (n : ℕ) (s : Store) → R.score (R.zadd t n s) t ≡ some n
  zadd_self t n s = rw (R.score-zadd, (R.text_eq_iff t t).1 refl)

  recover_once_looped :
      (uuid : String) (s : Store)
      → (recover_loop R settings now (items s settings.processing) s).0 ≡ ok tt
      → settings.recover_stuck_jobs_delay_seconds ≢ 0
      → recover_stuck_jobs R settings uuid now s ≡ (
        ok tt,
        R.zadd
            (dumps (new_job R uuid now "recover_stuck_jobs" no_fields (pos 3)))
            (seconds now + settings.recover_stuck_jobs_delay_seconds)
            (recover_loop R settings now (items s settings.processing) s).1,
      )
  unfolding recover_stuck_jobs
  recover_once_looped uuid s looped delayed = ground arith

  -- Where every text in the processing list parses and the delay of the task is not 0: the jobs that
  -- have run for more than 300 seconds leave it and are pushed on the queue, stamped with the time;
  -- the others stay, in their order; and the task is scheduled again after its delay.
  pub recover_requeues_stuck :
      (uuid : String) (s : Store)
      → AllParse R now (items s settings.processing)
      → settings.recover_stuck_jobs_delay_seconds ≢ 0
      → let (r, s') = recover_stuck_jobs R settings uuid now s in
        Recovered
          (r, s')
          (running R now (items s settings.processing))
          (requeued R now (items s settings.processing) (items s settings.queue))
        × (R.score s' (dumps (new_job R uuid now "recover_stuck_jobs" no_fields (pos 3)))
            ≡ some (seconds now + settings.recover_stuck_jobs_delay_seconds))
  recover_requeues_stuck uuid s parse delayed =
      let looped = recover_loop_lem (items s settings.processing) [] s parse tt refl in
      let (_, s') = recover_loop R settings now (items s settings.processing) s in
      rw (recover_once_looped uuid s looped.0 delayed) (
        (
          refl,
          R.items-zadd _ _ s' settings.processing ∙ looped.1,
          R.items-zadd _ _ s' settings.queue ∙ looped.2,
        ),
        zadd_self _ _ s',
      )

  run_recover :
      (W : Type 0) (tasks : Tasks R W) (uuid : String) (job : Job) (s : Store) (w : W)
      → tasks.recover_stuck_jobs ≡ recover_task R W settings uuid now
      → job.job_type ≡ "recover_stuck_jobs"
      → run_task R W tasks job (s, w) ≡ (
        (recover_stuck_jobs R settings uuid now s).0,
        ((recover_stuck_jobs R settings uuid now s).1, w),
      )
  unfolding run_task recover_task
  run_recover W tasks uuid job s w is_task named = rw (named, is_task)

  popped_alone :
      (job : Job) (s : Store)
      → items s settings.queue ≡ dumps job ∷ []
      → items s settings.processing ≡ []
      → let s₁ = (R.brpoplpush settings.queue settings.processing s).1 in
        (items s₁ settings.processing ≡ dumps job ∷ []) × (items s₁ settings.queue ≡ [])
  popped_alone job s alone empty = (
    R.target-brpoplpush _ _ s (dumps job) lists.queue-processing (ap last alone)
        ∙ ap (λ (l : List Text). dumps job ∷ l) empty,
    R.source-brpoplpush _ _ s lists.queue-processing ∙ ap init alone,
  )

  recover_alone :
      (uuid : String) (job : Job) (s : Store)
      → items s settings.processing ≡ dumps job ∷ []
      → items s settings.queue ≡ []
      → is_stuck now job ≡ true
      → settings.recover_stuck_jobs_delay_seconds ≢ 0
      → let (r, s') = recover_stuck_jobs R settings uuid now s in
        (r ≡ ok tt)
        × (items s' settings.processing ≡ [])
        × (items s' settings.queue ≡ dumps (record job { processing_started_at = some now }) ∷ [])
        × (R.score s' (dumps (new_job R uuid now "recover_stuck_jobs" no_fields (pos 3)))
            ≡ some (seconds now + settings.recover_stuck_jobs_delay_seconds))
  recover_alone uuid job s mine waiting stuck delayed =
      let is : stuck_text R now (dumps job) ≡ true =
        stuck_text_of R now (R.loads-dumps job) ∙ stuck in
      let (done, scheduled) =
        recover_requeues_stuck uuid s (rw mine ((job, R.loads-dumps job), tt)) delayed in
      (
        done.0,
        done.1 ∙ ap (running R now) mine ∙ rw is refl,
        done.2
            ∙ ap₂ (requeued R now) mine waiting
            ∙ rw (is, restamped_of R now (R.loads-dumps job)) refl,
        scheduled,
      )

  -- The worker runs the task from a job of its own, alone in the queue, which lies alone in the
  -- processing list meanwhile. If that job was enqueued more than 300 seconds ago, as after a delay
  -- of 300 seconds it is, and the delay of the task is not 0, the task takes itself for stuck: one
  -- job in the queue becomes one in the queue and one more that is scheduled.
  pub recover_requeues_itself :
      (W : Type 0) (tasks : Tasks R W) (uuid : String) (job : Job) (s : Store) (w : W)
      → tasks.recover_stuck_jobs ≡ recover_task R W settings uuid now
      → job.job_type ≡ "recover_stuck_jobs"
      → items s settings.queue ≡ dumps job ∷ []
      → items s settings.processing ≡ []
      → is_stuck now job ≡ true
      → settings.recover_stuck_jobs_delay_seconds ≢ 0
      → let (s', _) = worker_round R W settings tasks (s, w) in
        (items s' settings.queue ≡ dumps (record job { processing_started_at = some now }) ∷ [])
        × (items s' settings.processing ≡ [])
        × (R.score s' (dumps (new_job R uuid now "recover_stuck_jobs" no_fields (pos 3)))
            ≡ some (seconds now + settings.recover_stuck_jobs_delay_seconds))
  recover_requeues_itself W tasks uuid job s w is_task named alone empty stuck delayed =
      let s₁ = (R.brpoplpush settings.queue settings.processing s).1 in
      let (_, s₂) = recover_stuck_jobs R settings uuid now s₁ in
      let (mine, recovered) = popped_alone job s alone empty in
      let done = recover_alone uuid job s₁ mine recovered stuck delayed in
      rw
        (
          worker_round_picks R settings W tasks s w (dumps job) job (ap last alone)
              (R.loads-dumps job),
          run_recover W tasks uuid job s₁ w is_task named,
          done.0,
        )
        (unfold settle in
          (
            rw (R.items-lrem, lists.processing-queue) done.2,
            rw (R.items-lrem, eq_refl, done.1),
            rw R.score-lrem done.3,
          ))
