-- ===== src/Jobs/Model.antt =====
-- A store in memory that has the behaviour which the job code relies on.
use mathlib.Core.Bool.{decide, decide_iff}
use native.Mathlib.Decide.{ℕ_discrete}
use text.Mathlib.TextPositions.{eq_refl}
use swiftpaste.Prelude.{
  ℕ, String, ◌≡◌, refl, ap, ◌↔◌, Bool, true, false, Option, none, some, List, [], ◌∷◌, arith, leb,
  str_eq, eq_iff, if◌then◌else◌, Bool-cases, inl, inr,
}
use swiftpaste.Prelude.Lists.{last, init}
use swiftpaste.Jobs.Store.{Job, JobPayload, JobStore, remove_first, count}

String-discrete : Discrete String
String-discrete a b = elim (Bool-cases (str_eq a b)) [
  | inl same ↦ yes ((eq_iff a b).0 same)
  | inr other ↦ no (λ p. cc (other, (eq_iff a b).1 p))
]

-- A text: what `json.dumps` writes for a job, or a text that does not parse.
pub data Text : Type 0 where
  json : Job → Text
  junk : String → Text

JobPayload-discrete : Discrete JobPayload
JobPayload-discrete = hlevel String-discrete

Job-discrete : Discrete Job
Job-discrete = hlevel (String-discrete, ℕ_discrete, JobPayload-discrete)

pub Text-discrete : Discrete Text
Text-discrete = hlevel (String-discrete, Job-discrete)

abbrev pub text_eq : Text → Text → Bool
text_eq t u = decide (Text-discrete t u)

pub text_eq_iff : (t u : Text) → (text_eq t u ≡ true) ↔ (t ≡ u)
text_eq_iff t u = decide_iff (Text-discrete t u)

pub record Memory : Type 0 where
  pub lists : String → List Text
  pub zset : List (Text × ℕ)

abbrev pub loads : Text → Option Job
loads (json job) = some job
loads (junk _) = none

abbrev pub mentions : String → Text → Bool
mentions job_type (json job) = str_eq job_type job.job_type
mentions job_type (junk _) = false

abbrev pub set_list : String → List Text → (String → List Text) → String → List Text
set_list q l lists k = if str_eq q k then l else lists k

abbrev pub lookup : Text → List (Text × ℕ) → Option ℕ
lookup u [] = none
lookup u ((t, n) ∷ z) = if text_eq t u then some n else lookup u z

-- Every binding of a member is dropped.
abbrev pub without : Text → List (Text × ℕ) → List (Text × ℕ)
without t [] = []
without t ((u, n) ∷ z) = let rest = without t z in if text_eq u t then rest else (u, n) ∷ rest

abbrev pub drop_all : Text → List Text → List Text
drop_all t [] = []
drop_all t (u ∷ us) = let rest = drop_all t us in if text_eq u t then rest else u ∷ rest

abbrev pub members : (ℕ → Bool) → List (Text × ℕ) → List Text
members keep [] = []
members keep ((t, n) ∷ z) =
    let rest = drop_all t (members keep z) in if keep n then t ∷ rest else rest

abbrev pub pop : String → String → Option Text → Memory → Option Text × Memory
pop q r none s = (none, s)
pop q r (some t) s = (
  some t,
  record s {
    lists =
        set_list r (t ∷ set_list q (init (s.lists q)) s.lists r)
          (set_list q (init (s.lists q)) s.lists);
  },
)

pub lookup-without :
    (t u : Text) (z : List (Text × ℕ))
    → lookup u (without t z) ≡ (if text_eq t u then none else lookup u z)
lookup-without t u [] = ground arith
lookup-without t u ((v, n) ∷ z) =
    ground (arith, lookup-without t u z, text_eq_iff v t, text_eq_iff v u, text_eq_iff t u)

count-drop_all :
    (t u : Text) (us : List Text)
    → count text_eq u (drop_all t us) ≡ (if text_eq t u then 0 else count text_eq u us)
count-drop_all t u [] = ground arith
count-drop_all t u (v ∷ us) =
    ground (arith, count-drop_all t u us, text_eq_iff v t, text_eq_iff v u, text_eq_iff t u)

abbrev pub kept : (ℕ → Bool) → Option ℕ → ℕ
kept keep none = 0
kept keep (some n) = if keep n then 1 else 0

count-members :
    (keep : ℕ → Bool) (u : Text) (z : List (Text × ℕ))
    → count text_eq u (members keep z) ≡ kept keep (lookup u z)
count-members keep u [] = refl
count-members keep u ((t, n) ∷ z) =
    ground (arith, count-members keep u z, count-drop_all t u (members keep z))

module _ (q r : String) (s : Memory) where
  pub popped_pop : (o : Option Text) → (pop q r o s).0 ≡ o
  popped_pop none = refl
  popped_pop (some t) = refl

  pub source_pop :
      (o : Option Text)
      → last (s.lists q) ≡ o
      → str_eq q r ≡ false
      → (pop q r o s).1.lists q ≡ init (s.lists q)
  source_pop none e d = last_none (s.lists q) e
    where
      last_none : (l : List Text) → last l ≡ none → l ≡ init l
      last_none [] e = refl
      last_none (x ∷ []) e = cc
      last_none (x ∷ y ∷ l) e = absurd (some_last x y l e)
        where
          some_last : (x y : Text) (l : List Text) → last (x ∷ y ∷ l) ≡ none → ⊥
          some_last x y [] e = cc
          some_last x y (z ∷ l) e = some_last y z l e
  source_pop (some t) e d = ground (arith, eq_refl q, eq_iff r q, eq_iff q r)

  pub target_pop :
      (t : Text)
      → str_eq q r ≡ false
      → last (s.lists q) ≡ some t
      → (pop q r (last (s.lists q)) s).1.lists r ≡ t ∷ s.lists r
  target_pop t d e = rw (e, pop) (simp (eq_refl, d))

  pub others_pop :
      (k : String) (o : Option Text)
      → str_eq q k ≡ false
      → str_eq r k ≡ false
      → (pop q r o s).1.lists k ≡ s.lists k
  others_pop k none a b = refl
  others_pop k (some t) a b = simp (a, b)

  pub zset_pop : (o : Option Text) → (pop q r o s).1.zset ≡ s.zset
  zset_pop none = refl
  zset_pop (some t) = refl

pub count_elim :
    (keep : ℕ → Bool) (u : Text) (z : List (Text × ℕ))
    → count text_eq u (members keep z)
      ≡ elim (lookup u z) [ none ↦ 0 | some n ↦ if keep n then 1 else 0 ]
count_elim keep u z = ground (arith, count-members keep u z)

pub score-zadd :
    (t : Text) (n : ℕ) (z : List (Text × ℕ)) (u : Text)
    → lookup u ((t, n) ∷ without t z) ≡ (if text_eq t u then some n else lookup u z)
score-zadd t n z u = ground (arith, lookup-without t u z)

pub set_list_lem :
    (f : List Text → List Text) (q k : String) (lists : String → List Text)
    → set_list q (f (lists q)) lists k ≡ (if str_eq q k then f (lists k) else lists k)
set_list_lem f q k lists = elim (Bool-cases (str_eq q k)) [
  | inl same ↦ rw (same, (eq_iff q k).0 same)
  | inr other ↦ rw other
]

abbrev pub memory : JobStore
memory = record {
  Store = Memory;
  Text = Text;
  text_eq = text_eq;
  raises = λ s. none;
  text_eq_iff = text_eq_iff;
  dumps = json;
  loads = loads;
  loads-dumps = λ job. refl;
  mentions = mentions;
  mentions-dumps = λ job. eq_refl job.job_type;
  items = λ s k. s.lists k;
  score = λ s u. lookup u s.zset;
  lpush = λ q t s. record s { lists = set_list q (t ∷ s.lists q) s.lists };
  lrem = λ q t s. record s { lists = set_list q (remove_first text_eq t (s.lists q)) s.lists };
  brpoplpush = λ q r s. pop q r (last (s.lists q)) s;
  zadd = λ t n s. record s { zset = (t, n) ∷ without t s.zset };
  zrem = λ t s. record s { zset = without t s.zset };
  zrange = λ s. members (λ _. true) s.zset;
  zrangebyscore = λ now s. members (λ n. leb n now) s.zset;
  items-lpush = λ q t s k. set_list_lem (λ l. t ∷ l) q k s.lists;
  score-lpush = λ q t s u. refl;
  items-lrem = λ q t s k. set_list_lem (remove_first text_eq t) q k s.lists;
  score-lrem = λ q t s u. refl;
  popped-brpoplpush = λ q r s. popped_pop q r s (last (s.lists q));
  source-brpoplpush = λ q r s d. source_pop q r s (last (s.lists q)) refl d;
  target-brpoplpush = λ q r s t d e. target_pop q r s t d e;
  others-brpoplpush = λ q r s k a b. others_pop q r s k (last (s.lists q)) a b;
  empty-brpoplpush = λ q r s k e. ap (λ o. (pop q r o s).1.lists k) e;
  score-brpoplpush = λ q r s u. ap (lookup u) (zset_pop q r s (last (s.lists q)));
  items-zadd = λ t n s k. refl;
  score-zadd = λ t n s u. score-zadd t n s.zset u;
  items-zrem = λ t s k. refl;
  score-zrem = λ t s u. lookup-without t u s.zset;
  count-zrangebyscore = λ now s u. count_elim (λ n. leb n now) u s.zset;
  count-zrange = λ s u. count_elim (λ _. true) u s.zset;
}
