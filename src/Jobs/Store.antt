-- ===== src/Jobs/Store.antt =====
-- The jobs as app/jobs/queue.py writes them, and what the job code relies on of Redis and of `json`.
use swiftpaste.Prelude.{
  ℕ, ◌+◌, String, ◌≡◌, ◌↔◌, Bool, true, false, Option, none, some, List, [], ◌∷◌, leb, str_eq,
  if◌then◌else◌,
}
use swiftpaste.Prelude.Int.{ℤ}
use swiftpaste.Core.Errors.{Failure}
use swiftpaste.Prelude.Lists.{last, init}

-- The payloads that the code enqueues: `{}`, and that of the two index tasks.
pub data JobPayload : Type 0 where
  no_fields : JobPayload
  snippet_fields : String → String → String → JobPayload

-- The dict of one job. `processing_started_at` is a key that only `recover_stuck_jobs` sets; it is a
-- float, kept here in milliseconds.
pub record Job : Type 0 where
  pub id : String
  pub job_type : String
  pub payload : JobPayload
  pub retries : ℤ
  pub created_at : ℕ
  pub processing_started_at : Option ℕ

module _ {A : Type 0} (same : A → A → Bool) where
  -- LREM with count 1: the first element from the head that is equal.
  abbrev pub remove_first : A → List A → List A
  remove_first x [] = []
  remove_first x (y ∷ ys) = if same y x then ys else y ∷ remove_first x ys

  abbrev pub count : A → List A → ℕ
  count x [] = 0
  count x (y ∷ ys) = (if same y x then 1 else 0) + count x ys

-- The lists of Redis, head first, and the sorted set `jobs:scheduled`, as a score for each member.
pub record JobStore : Type 1 where
  pub Store : Type 0
  pub Text : Type 0
  pub text_eq : Text → Text → Bool
  pub text_eq_iff : (t u : Text) → (text_eq t u ≡ true) ↔ (t ≡ u)
  -- `json.dumps` and `json.loads`; `none` is a text that does not parse as a job
  pub dumps : Job → Text
  pub loads : Text → Option Job
  pub loads-dumps : (job : Job) → loads (dumps job) ≡ some job
  -- `job_type in job`, on the text
  pub mentions : String → Text → Bool
  pub mentions-dumps : (job : Job) → mentions job.job_type (dumps job) ≡ true
  pub items : Store → String → List Text
  -- the exception with which an LPUSH ends, where Redis does not take it
  pub raises : Store → Option Failure
  pub score : Store → Text → Option ℕ
  pub lpush : String → Text → Store → Store
  pub lrem : String → Text → Store → Store
  pub brpoplpush : String → String → Store → Option Text × Store
  pub zadd : Text → ℕ → Store → Store
  pub zrem : Text → Store → Store
  pub zrange : Store → List Text
  pub zrangebyscore : ℕ → Store → List Text
  pub items-lpush :
      (q : String) (t : Text) (s : Store) (k : String)
      → items (lpush q t s) k ≡ (if str_eq q k then t ∷ items s k else items s k)
  pub score-lpush :
      (q : String) (t : Text) (s : Store) (u : Text) → score (lpush q t s) u ≡ score s u
  pub items-lrem :
      (q : String) (t : Text) (s : Store) (k : String)
      → items (lrem q t s) k
        ≡ (if str_eq q k then remove_first text_eq t (items s k) else items s k)
  pub score-lrem : (q : String) (t : Text) (s : Store) (u : Text) → score (lrem q t s) u ≡ score s u
  -- the popped element is the last of the source, and is pushed on the head of the target
  pub popped-brpoplpush : (q r : String) (s : Store) → (brpoplpush q r s).0 ≡ last (items s q)
  pub source-brpoplpush :
      (q r : String) (s : Store)
      → str_eq q r ≡ false
      → items (brpoplpush q r s).1 q ≡ init (items s q)
  pub target-brpoplpush :
      (q r : String) (s : Store) (t : Text)
      → str_eq q r ≡ false
      → last (items s q) ≡ some t
      → items (brpoplpush q r s).1 r ≡ t ∷ items s r
  pub others-brpoplpush :
      (q r : String) (s : Store) (k : String)
      → str_eq q k ≡ false
      → str_eq r k ≡ false
      → items (brpoplpush q r s).1 k ≡ items s k
  -- with nothing in the source, nothing changes
  pub empty-brpoplpush :
      (q r : String) (s : Store) (k : String)
      → last (items s q) ≡ none
      → items (brpoplpush q r s).1 k ≡ items s k
  pub score-brpoplpush :
      (q r : String) (s : Store) (u : Text) → score (brpoplpush q r s).1 u ≡ score s u
  pub items-zadd : (t : Text) (n : ℕ) (s : Store) (k : String) → items (zadd t n s) k ≡ items s k
  pub score-zadd :
      (t : Text) (n : ℕ) (s : Store) (u : Text)
      → score (zadd t n s) u ≡ (if text_eq t u then some n else score s u)
  pub items-zrem : (t : Text) (s : Store) (k : String) → items (zrem t s) k ≡ items s k
  pub score-zrem :
      (t : Text) (s : Store) (u : Text)
      → score (zrem t s) u ≡ (if text_eq t u then none else score s u)
  -- each member with a score in the range is listed once
  pub count-zrangebyscore :
      (now : ℕ) (s : Store) (u : Text)
      → count text_eq u (zrangebyscore now s)
        ≡ elim (score s u) [ none ↦ 0 | some n ↦ if leb n now then 1 else 0 ]
  pub count-zrange :
      (s : Store) (u : Text)
      → count text_eq u (zrange s) ≡ elim (score s u) [ none ↦ 0 | some n ↦ 1 ]
