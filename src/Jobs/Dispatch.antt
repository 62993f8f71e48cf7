-- ===== src/Jobs/Dispatch.antt =====
-- The scheduler moves each job that is due into the queue once, and leaves the others.
use swiftpaste.Prelude.{
  ℕ, ◌+◌, String, ◌≡◌, ◌⊎◌, refl, true, false, Option, none, some, List, [], ◌∷◌, arith, leb, ◌==◌,
  Bool-cases, inl, inr, str_eq, if◌then◌else◌,
}
use text.Mathlib.TextPositions.{eq_refl}
use native.Mathlib.Nat.{zero-add}
use swiftpaste.Core.Config.{Settings}
use swiftpaste.Jobs.Store.{JobStore, count}
use swiftpaste.Jobs.Queue.{seconds, move_all, dispatch_scheduled_jobs}

-- What is left of a score at the time `now`, and whether the job has moved.
abbrev pub not_due : ℕ → Option ℕ → Option ℕ
not_due now none = none
not_due now (some run_at) = if leb run_at now then none else some run_at

abbrev pub due : ℕ → Option ℕ → ℕ
due now none = 0
due now (some run_at) = if leb run_at now then 1 else 0

module _ (R : JobStore) (settings : Settings) where
  open R use {Store, Text, text_eq, text_eq_iff, items, score}

  pub items-move_all :
      (jobs : List Text) (s : Store) (k : String)
      → str_eq settings.queue k ≡ false
      → items (move_all R settings jobs s) k ≡ items s k
  unfolding move_all
  items-move_all [] s k other = refl
  items-move_all (t ∷ jobs) s k other =
      rw (items-move_all jobs (R.lpush settings.queue t (R.zrem t s)) k other)
        (rw (R.items-lpush, R.items-zrem, other))

  pub count-move_all :
      (jobs : List Text) (s : Store) (u : Text)
      → count text_eq u (items (move_all R settings jobs s) settings.queue)
        ≡ count text_eq u jobs + count text_eq u (items s settings.queue)
  unfolding move_all
  count-move_all [] s u = rw zero-add
  count-move_all (t ∷ jobs) s u =
      rw (count-move_all jobs (R.lpush settings.queue t (R.zrem t s)) u)
        (rw (R.items-lpush, R.items-zrem, eq_refl) (omega arith))

  pub score-move_all :
      (jobs : List Text) (s : Store) (u : Text)
      → score (move_all R settings jobs s) u
        ≡ (if count text_eq u jobs == 0 then score s u else none)
  unfolding move_all
  score-move_all [] s u = refl
  score-move_all (t ∷ jobs) s u =
      rw (score-move_all jobs (R.lpush settings.queue t (R.zrem t s)) u)
        (rw (R.score-lpush, R.score-zrem) (ground arith))

  -- After one round at the time `now`: a job whose time has come is in the queue once more than before
  -- and is scheduled no longer, any other scheduled job still waits, and no other list has changed.
  pub dispatch_moves_due :
      (now : ℕ) (s : Store) (u : Text)
      → let s' = dispatch_scheduled_jobs R settings now s in
        (score s' u ≡ not_due (seconds now) (score s u))
        × (count text_eq u (items s' settings.queue)
            ≡ due (seconds now) (score s u) + count text_eq u (items s settings.queue))
        × ((k : String) → (str_eq settings.queue k ≡ true) ⊎ (items s' k ≡ items s k))
  unfolding dispatch_scheduled_jobs
  dispatch_moves_due now s u =
      let jobs = R.zrangebyscore (seconds now) s in
      (
        rw (score-move_all jobs s u) (ground (arith, R.count-zrangebyscore (seconds now) s u)),
        rw (count-move_all jobs s u) (ground (arith, R.count-zrangebyscore (seconds now) s u)),
        λ k. elim (Bool-cases (str_eq settings.queue k)) [
          | inl same ↦ inl same
          | inr other ↦ inr (items-move_all jobs s k other)
        ],
      )
