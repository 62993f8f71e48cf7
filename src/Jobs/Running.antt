-- ===== src/Jobs/Running.antt =====
-- The texts in a list of jobs that are stuck at a time, and those that are not.
use swiftpaste.Prelude.{
  ℕ, ◌≡◌, refl, Bool, true, false, none, some, List, [], ◌∷◌, ◌++◌, ap, if◌then◌else◌, Bool-cases,
  inl, inr,
}
use swiftpaste.Jobs.Store.{Job, JobStore, remove_first}
use swiftpaste.Jobs.Recover.{is_stuck}

module _ (R : JobStore) (now : ℕ) where
  open R use {Store, Text, text_eq, text_eq_iff, loads, dumps}

  -- Whether the job that a text stands for is stuck at the time `now`.
  abbrev pub stuck_text : Text → Bool
  stuck_text t = elim (loads t) [ none ↦ false | some job ↦ is_stuck now job ]

  abbrev pub AllParse : List Text → Type 0
  AllParse [] = Unit
  AllParse (t ∷ ts) = ((job : Job) × (loads t ≡ some job)) × AllParse ts

  abbrev pub AllRunning : List Text → Type 0
  AllRunning [] = Unit
  AllRunning (t ∷ ts) = (stuck_text t ≡ false) × AllRunning ts

  -- The jobs that are not stuck.
  abbrev pub running : List Text → List Text
  running [] = []
  running (t ∷ ts) = if stuck_text t then running ts else t ∷ running ts

  abbrev pub restamped : Text → Text
  restamped t = elim (loads t) [
    | none ↦ t
    | some job ↦ dumps (record job { processing_started_at = some now })
  ]

  -- The queue after the stuck jobs have been pushed on it, each with the time `now` in it.
  abbrev pub requeued : List Text → List Text → List Text
  requeued [] queue = queue
  requeued (t ∷ ts) queue = requeued ts (if stuck_text t then restamped t ∷ queue else queue)

  pub stuck_text_of : {t : Text} {job : Job} → loads t ≡ some job → stuck_text t ≡ is_stuck now job
  stuck_text_of e = rw (e, stuck_text)

  pub restamped_of :
      {t : Text} {job : Job}
      → loads t ≡ some job
      → restamped t ≡ dumps (record job { processing_started_at = some now })
  restamped_of e = rw (e, restamped)

  pub AllRunning-snoc :
      (ks : List Text) (t : Text) → AllRunning ks → stuck_text t ≡ false → AllRunning (ks ++ t ∷ [])
  AllRunning-snoc [] t h e = (e, tt)
  AllRunning-snoc (k ∷ ks) t h e = (h.0, AllRunning-snoc ks t h.1 e)

  pub remove_first_stuck :
      (ks : List Text) (t : Text) (ts : List Text)
      → AllRunning ks
      → stuck_text t ≡ true
      → remove_first text_eq t (ks ++ t ∷ ts) ≡ ks ++ ts
  remove_first_stuck [] t ts h e = rw ((text_eq_iff t t).1 refl)
  remove_first_stuck (k ∷ ks) t ts h e = elim (Bool-cases (text_eq k t)) [
    | inl same ↦ cc ((text_eq_iff k t).0 same, h.0)
    | inr other ↦ rw other (ap (λ (l : List Text). k ∷ l) (remove_first_stuck ks t ts h.1 e))
  ]
