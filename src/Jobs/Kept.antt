-- ===== src/Jobs/Kept.antt =====
-- What it is for a job to be kept, and the changes of the system that keep it.
use mathlib.Core.Path.{subst}
use text.Mathlib.TextPositions.{eq_refl}
use swiftpaste.Prelude.{
  ℕ, ◌<◌, String, ◌≡◌, refl, ◌⊎◌, sym, ap, ◌∙◌, true, false, none, some, List, arith, str_eq, ◌==◌,
  Bool-cases, inl, inr,
}
use swiftpaste.Prelude.Int.{pos, ltb_ℤ}
use swiftpaste.Core.Config.{Settings}
use swiftpaste.Search.{has}
use swiftpaste.Jobs.Store.{Job, JobStore}
use swiftpaste.Jobs.Retry.{HasDistinctLists}
use swiftpaste.Jobs.Interleaved.{Hand, System, put, in_memory_only, list_after_failure}
use swiftpaste.Jobs.Places.{places, places-lpush, places-lpush_self, places-lrem}

==-refl : (k : ℕ) → (k == k) ≡ true
==-refl k = ground arith

==-eq : (k j : ℕ) → (k == j) ≡ true → k ≡ j
==-eq k j e = ground (arith, e)

some_injective : {A : Type 0} {a b : A} → some a ≡ some b → a ≡ b
some_injective e = cc

module _ (R : JobStore) (settings : Settings) (lists : HasDistinctLists settings) where
  open R use {Store, Text, text_eq, text_eq_iff, dumps, loads, lpush, lrem}

  -- The text of a job with this id.
  abbrev pub IsTextOf : String → Text → Type 0
  IsTextOf id t = (job : Job) × (loads t ≡ some job) × (job.id ≡ id)

  abbrev pub IsHeld : String → Hand R → Type 0
  IsHeld id h = (job : Job) × (in_memory_only R h ≡ some job) × (job.id ≡ id)

  -- A job with the id is in the queue, processed, failed or scheduled; or a process is about to push it; or
  -- its task has returned.
  abbrev pub IsKept : String → System R → Type 0
  IsKept id x =
      ((t : Text) × IsTextOf id t × (0 < places R settings lists t x.store))
      ⊎ (((k : ℕ) × IsHeld id (x.hands k)) ⊎ (has id x.finished ≡ true))

  IsHeld-elsewhere :
      (id : String) (k j : ℕ) (h : Hand R) (hands : ℕ → Hand R)
      → (k == j) ≡ false
      → IsHeld id (hands j)
      → IsHeld id (put R k h hands j)
  IsHeld-elsewhere id k j h hands other (job, held, same) = (job, rw other held, same)

  pub IsHeld-here :
      (k : ℕ) (h : Hand R) (hands : ℕ → Hand R) {job : Job}
      → in_memory_only R h ≡ some job
      → IsHeld job.id (put R k h hands k)
  IsHeld-here k h hands {job} e = (job, rw (==-refl k) e, refl)

  IsHeld-stays :
      (id : String) (k : ℕ) (h : Hand R) (hands : ℕ → Hand R)
      → in_memory_only R (hands k) ≡ none
      → ((j : ℕ) × IsHeld id (hands j))
      → (j : ℕ) × IsHeld id (put R k h hands j)
  IsHeld-stays id k h hands free (j, (job, held, same)) = elim (Bool-cases (k == j)) [
    | inl is ↦ absurd (cc (ap (λ i. in_memory_only R (hands i)) (==-eq k j is), free, held))
    | inr other ↦ (j, IsHeld-elsewhere id k j h hands other (job, held, same))
  ]

  module _ (id : String) (x : System R) (k : ℕ) (h : Hand R) where
    -- The process held nothing, and no text has left Redis.
    pub IsKept-in_redis :
        (s : Store)
        → in_memory_only R (x.hands k) ≡ none
        → ((u : Text) → 0 < places R settings lists u x.store → 0 < places R settings lists u s)
        → IsKept id x
        → IsKept id (record x { store = s; hands = put R k h x.hands })
    IsKept-in_redis s free stay (inl (t, of, there)) = inl (t, of, stay t there)
    IsKept-in_redis s free stay (inr (inl held)) = inr (inl (IsHeld-stays id k h x.hands free held))
    IsKept-in_redis s free stay (inr (inr done)) = inr (inr done)

    -- One text has been removed from the processing list, and its id is kept elsewhere.
    pub IsKept-after_lrem :
        (t : Text) (finished : List String)
        → let x' : System R = record {
          store = lrem settings.processing t x.store;
          hands = put R k h x.hands;
          finished = finished;
        } in
          in_memory_only R (x.hands k) ≡ none
          → (IsTextOf id t → IsKept id x')
          → (has id x.finished ≡ true → has id finished ≡ true)
          → IsKept id x
          → IsKept id x'
    IsKept-after_lrem t finished free else_where more (inl (u, of, there)) =
        elim (Bool-cases (text_eq u t)) [
          | inl same ↦ else_where (subst (IsTextOf id) ((text_eq_iff u t).0 same) of)
          | inr other ↦ inl (u, of, rw (places-lrem R settings lists t x.store u other) there)
        ]
    IsKept-after_lrem t finished free else_where more (inr (inl held)) =
        inr (inl (IsHeld-stays id k h x.hands free held))
    IsKept-after_lrem t finished free else_where more (inr (inr done)) = inr (inr (more done))

    -- The process has pushed the job that it held.
    pub IsKept-after_lpush :
        (q : String) (job : Job)
        → (str_eq q settings.queue ≡ true) ⊎ (str_eq q settings.failed ≡ true)
        → in_memory_only R (x.hands k) ≡ some job
        → IsKept id x
        → IsKept id (record x { store = lpush q (dumps job) x.store; hands = put R k h x.hands })
    IsKept-after_lpush q job known held (inl (t, of, there)) =
        inl (t, of, places-lpush R settings lists q (dumps job) x.store t there)
    IsKept-after_lpush q job known held (inr (inl (j, (job', held', same)))) =
        elim (Bool-cases (k == j)) [
          | inl is ↦
              let it : job' ≡ job =
                some_injective (
                  sym held' ∙ sym (ap (λ i. in_memory_only R (x.hands i)) (==-eq k j is)) ∙ held) in
              inl (
                dumps job,
                (job, R.loads-dumps job, sym (ap (λ (y : Job). y.id) it) ∙ same),
                places-lpush_self R settings lists q (dumps job) x.store known,
              )
          | inr other ↦ inr (inl (j, IsHeld-elsewhere id k j h x.hands other (job', held', same)))
        ]
    IsKept-after_lpush q job known held (inr (inr done)) = inr (inr done)

  pub known_list :
      (job : Job)
      → (str_eq (list_after_failure R settings job) settings.queue ≡ true)
        ⊎ (str_eq (list_after_failure R settings job) settings.failed ≡ true)
  known_list job = elim (Bool-cases (ltb_ℤ (pos 0) job.retries)) [
    | inl more ↦ inl (rw more (eq_refl settings.queue))
    | inr last_one ↦ inr (rw last_one (eq_refl settings.failed))
  ]

  pub free_of :
      (x : System R) (k : ℕ) {h : Hand R}
      → x.hands k ≡ h
      → in_memory_only R h ≡ none
      → in_memory_only R (x.hands k) ≡ none
  free_of x k e free = ap (in_memory_only R) e ∙ free

  -- The id of a text that parses as this job.
  pub job_of :
      (id : String) (t : Text) (job : Job) → loads t ≡ some job → IsTextOf id t → job.id ≡ id
  job_of id t job parsed (job', parsed', same) =
      ap (λ (y : Job). y.id) (some_injective (sym parsed ∙ parsed')) ∙ same

  pub same_places :
      (s : Store) (u : Text) → 0 < places R settings lists u s → 0 < places R settings lists u s
  same_places s u there = there
