-- ===== src/Jobs/Backlog.antt =====
-- The order in which the worker of app/jobs/worker.py takes the queue: tasks push jobs on its head, and a
-- round takes its last.
use mathlib.Core.List.{append_assoc}
use text.Mathlib.TextPositions.{eq_refl}
use swiftpaste.Prelude.{
  ℕ, zero, suc, String, ◌≡◌, refl, sym, ap, ◌∙◌, some, List, [], ◌∷◌, ◌++◌, arith, str_eq, ◌==◌,
  Bool-cases, Option-cases, inl, inr,
}
use swiftpaste.Prelude.Int.{ℤ, pos, ◌-ℤ◌, ltb_ℤ}
use swiftpaste.Prelude.Lists.{
  length, last, init, last-append, init-append, length-init, last-some, HasInFront,
  HasInFront-trans,
}
use swiftpaste.Core.Config.{Settings}
use swiftpaste.Core.Errors.{Result, ok, err}
use swiftpaste.Jobs.Store.{Job, JobPayload, JobStore}
use swiftpaste.Jobs.Queue.{new_job, enqueue}
use swiftpaste.Jobs.Worker.{Tasks, run_task, job_failed, settle, process, worker_round, worker}
use swiftpaste.Jobs.Retry.{HasDistinctLists, worker_round_picks}

module _ (R : JobStore) (settings : Settings) where
  open R use {Store, Text, dumps, items, lpush, lrem, zadd}

  -- The second store has the queue of the first, and perhaps jobs that were pushed on its head.
  abbrev pub Pushes : Store → Store → Type 0
  Pushes s s' = HasInFront (items s settings.queue) (items s' settings.queue)

  pub Pushes-same : (s s' : Store) → items s' settings.queue ≡ items s settings.queue → Pushes s s'
  Pushes-same s s' e = ([], e)

  pub Pushes-lpush : (q : String) (t : Text) (s : Store) → Pushes s (lpush q t s)
  Pushes-lpush q t s = elim (Bool-cases (str_eq q settings.queue)) [
    | inl same ↦ (t ∷ [], R.items-lpush q t s settings.queue ∙ rw same refl)
    | inr other ↦ ([], R.items-lpush q t s settings.queue ∙ rw other refl)
  ]

  pub Pushes-enqueue :
      (uuid : String) (now : ℕ) (job_type : String) (payload : JobPayload) (delay : ℕ) (retries : ℤ)
      (s : Store)
      → Pushes s (enqueue R settings uuid now job_type payload delay retries s)
  unfolding enqueue
  Pushes-enqueue uuid now job_type payload delay retries s = elim (Bool-cases (delay == 0)) [
    | inl at_once ↦ rw at_once (Pushes-lpush _ _ s)
    | inr later ↦ rw later ([], R.items-zadd _ _ s settings.queue)
  ]

  pub items-enqueue :
      (uuid : String) (now : ℕ) (job_type : String) (payload : JobPayload) (retries : ℤ) (s : Store)
      → items (enqueue R settings uuid now job_type payload 0 retries s) settings.queue
        ≡ dumps (new_job R uuid now job_type payload retries) ∷ items s settings.queue
  unfolding enqueue
  items-enqueue uuid now job_type payload retries s =
      R.items-lpush settings.queue _ s settings.queue ∙ rw (eq_refl settings.queue) refl

  module _ (lists : HasDistinctLists settings) where
    pub items-lrem_processing :
        (t : Text) (s : Store)
        → items (lrem settings.processing t s) settings.queue ≡ items s settings.queue
    items-lrem_processing t s =
        R.items-lrem settings.processing t s settings.queue ∙ rw lists.processing-queue refl

    pub Pushes-lrem_lpush :
        (t u : Text) (q : String) (s : Store) → Pushes s (lpush q u (lrem settings.processing t s))
    Pushes-lrem_lpush t u q s =
        HasInFront-trans ([], items-lrem_processing t s)
          (Pushes-lpush q u (lrem settings.processing t s))

    Pushes-job_failed :
        (t : Text) (job : Job) (s : Store) → Pushes s (job_failed R settings t job s)
    unfolding job_failed
    Pushes-job_failed t job s = elim (Bool-cases (ltb_ℤ (pos 0) (job.retries -ℤ pos 1))) [
      | inl more ↦ rw more (Pushes-lrem_lpush t _ settings.queue s)
      | inr last_one ↦ rw last_one (Pushes-lrem_lpush t _ settings.failed s)
    ]

    module _ (W : Type 0) (tasks : Tasks R W) where
      -- A task may push jobs, and leaves those that are in the queue.
      abbrev pub OnlyPush : Type 0
      OnlyPush = (job : Job) (s : Store) (w : W) → Pushes s (run_task R W tasks job (s, w)).1.0

      Pushes-settle :
          (t : Text) (job : Job) (p : Result (Unit {0}) × (Store × W))
          → Pushes p.1.0 (settle R W settings t job p).0
      unfolding settle
      Pushes-settle t job (ok _, (s, w)) = ([], items-lrem_processing t s)
      Pushes-settle t job (err _, (s, w)) = Pushes-job_failed t job s

      module _ (only : OnlyPush) where
        Pushes-process :
            (t : Text) (s : Store) (w : W) → Pushes s (process R W settings tasks t (s, w)).0
        unfolding process
        Pushes-process t s w = elim (Option-cases (R.loads t)) [
          | inl bad ↦ rw (bad, process) ([], items-lrem_processing t s)
          | inr (job, parsed) ↦
              rw (parsed, process)
                (HasInFront-trans (only job s w)
                  (Pushes-settle t job (run_task R W tasks job (s, w))))
        ]

        -- A round takes the last text and leaves the others, which jobs may now precede.
        round_takes_last :
            (s : Store) (w : W) (u : Text)
            → last (items s settings.queue) ≡ some u
            → HasInFront
                (init (items s settings.queue))
                (items (worker_round R W settings tasks (s, w)).0 settings.queue)
        unfolding worker_round
        round_takes_last s w u here =
            let s₁ = (R.brpoplpush settings.queue settings.processing s).1 in
            rw (R.popped-brpoplpush settings.queue settings.processing s, here, worker_round)
              (HasInFront-trans ([], R.source-brpoplpush _ _ s lists.queue-processing)
                (Pushes-process u s₁ w))

        worker_one :
            (n : ℕ) (s : Store) (w : W)
            → worker R W settings tasks (suc n) (s, w)
              ≡ worker R W settings tasks n (worker_round R W settings tasks (s, w))
        unfolding worker
        worker_one n s w = refl

        worker_none : (x : Store × W) → worker R W settings tasks zero x ≡ x
        unfolding worker
        worker_none x = refl

        -- A job in the queue is handed to its task after the ones that are behind it, in as many rounds,
        -- whatever is pushed meanwhile.
        pub job_is_reached :
            (n : ℕ) (job : Job) (newer behind : List Text) (s : Store) (w : W)
            → items s settings.queue ≡ newer ++ (dumps job ∷ behind)
            → length behind ≡ n
            → (s' : Store) × (w' : W) × (worker R W settings tasks (suc n) (s, w)
                ≡ settle R W settings (dumps job) job (run_task R W tasks job (s', w')))
        job_is_reached zero job newer [] s w here counted = (
          (R.brpoplpush settings.queue settings.processing s).1,
          w,
          worker_one zero s w
              ∙ worker_none (worker_round R W settings tasks (s, w))
              ∙ worker_round_picks R settings W tasks s w (dumps job) job
                  (ap last here ∙ last-append newer (dumps job) []) (R.loads-dumps job),
        )
        job_is_reached zero job newer (u ∷ us) s w here counted = absurd (ground (arith, counted))
        job_is_reached (suc n) job newer [] s w here counted = absurd (ground (arith, counted))
        job_is_reached (suc n) job newer (u ∷ us) s w here counted =
            let (s₁, w₁) = worker_round R W settings tasks (s, w) in
            let (t, some_last) = last-some u us in
            let (pushed, there) =
              round_takes_last s w t
                (ap last here ∙ last-append newer (dumps job) (u ∷ us) ∙ some_last) in
            let still : items s₁ settings.queue ≡ (pushed ++ newer) ++ (dumps job ∷ init (u ∷ us)) =
              there
              ∙ ap (λ l. pushed ++ init l) here
              ∙ ap (λ l. pushed ++ l) (init-append newer (dumps job) (u ∷ us))
              ∙ sym (append_assoc pushed newer (dumps job ∷ init (u ∷ us))) in
            let (s', w', done) =
              job_is_reached n job (pushed ++ newer) (init (u ∷ us)) s₁ w₁ still
                (length-init u us ∙ ground (arith, counted)) in
            (s', w', worker_one (suc n) s w ∙ done)
