-- ===== src/Expiry/Model.antt =====
-- The expiries and the cache of a store in memory.
use swiftpaste.Prelude.{
  ℕ, String, ◌≡◌, refl, ◌∙◌, ap, Bool, true, false, ◌&&◌, Option, none, some, List, [], ◌∷◌, leb,
  str_eq, eq_iff, if◌then◌else◌, arith, Bool-cases, inl, inr,
}
use swiftpaste.Search.{has}
use swiftpaste.Expiry.{ExpiryStore}

-- The members of the sorted set are among the keys that are written down.
pub record Redis : Type 0 where
  pub keys : List String
  pub scores : String → Option ℕ
  pub strings : String → Option String

abbrev pub is_due : ℕ → Option ℕ → Bool
is_due now none = false
is_due now (some n) = leb n now

abbrev pub due_keys : ℕ → (String → Option ℕ) → List String → List String
due_keys now scores [] = []
due_keys now scores (k ∷ ks) =
    let rest = due_keys now scores ks in if is_due now (scores k) then k ∷ rest else rest

abbrev pub member_score : Redis → String → Option ℕ
member_score s k = if has k s.keys then s.scores k else none

has-due_keys :
    (now : ℕ) (scores : String → Option ℕ) (ks : List String) (k : String)
    → has k (due_keys now scores ks) ≡ (has k ks && is_due now (scores k))
has-due_keys now scores [] k = refl
has-due_keys now scores (j ∷ ks) k = elim (Bool-cases (str_eq j k)) [
  | inl same ↦
      ground
        (arith, has-due_keys now scores ks k, ap (λ i. is_due now (scores i)) ((eq_iff j k).0 same))
  | inr other ↦ ground (arith, has-due_keys now scores ks k)
]

pub has-zrangebyscore :
    (now : ℕ) (s : Redis) (k : String)
    → has k (due_keys now s.scores s.keys)
      ≡ elim (member_score s k) [ none ↦ false | some n ↦ leb n now ]
has-zrangebyscore now s k = has-due_keys now s.scores s.keys k ∙ go (has k s.keys) (s.scores k)
  where
    go :
        (b : Bool) (o : Option ℕ)
        → (b && is_due now o) ≡ elim (if b then o else none) [ none ↦ false | some n ↦ leb n now ]
    go true none = refl
    go true (some n) = refl
    go false o = refl

pub score-zrem :
    (k : String) (s : Redis) (j : String)
    → member_score (record s { scores = λ i. if str_eq k i then none else s.scores i }) j
      ≡ (if str_eq k j then none else member_score s j)
score-zrem k s j = ground arith

abbrev pub redis : ExpiryStore
redis = record {
  Store = Redis;
  Payload = String;
  score = member_score;
  cached = λ s k. s.strings k;
  zrangebyscore = λ now s. due_keys now s.scores s.keys;
  zrem = λ k s. record s { scores = λ j. if str_eq k j then none else s.scores j };
  delete = λ k s. record s { strings = λ j. if str_eq k j then none else s.strings j };
  has-zrangebyscore = has-zrangebyscore;
  score-zrem = score-zrem;
  cached-zrem = λ k s j. refl;
  score-delete = λ k s j. refl;
  cached-delete = λ k s j. refl;
}
