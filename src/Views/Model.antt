-- ===== src/Views/Model.antt =====
-- The counters of a store in memory.
use swiftpaste.Prelude.{
  ℕ, String, ◌≡◌, refl, ◌∙◌, ap, Bool, true, false, ◌&&◌, Option, none, some, List, [], ◌∷◌, str_eq,
  eq_iff, if◌then◌else◌, arith, Bool-cases, inl, inr,
}
use swiftpaste.Search.{has, distinct}
use swiftpaste.Search.Index.{has-distinct}
use swiftpaste.Snippets.Consistent.{is_there}
use swiftpaste.Views.{ViewStore, is_distinct, views_key, incremented}

-- The counters that are there are among the names.
pub record Redis : Type 0 where
  pub names : List String
  pub counters : String → Option ℕ

abbrev pub kept_keys : (String → Option ℕ) → List String → List String
kept_keys counters [] = []
kept_keys counters (k ∷ ks) =
    let rest = kept_keys counters ks in if is_there (counters k) then k ∷ rest else rest

abbrev pub counter : String → Redis → Option ℕ
counter k s = if has k s.names then s.counters k else none

has-kept_keys :
    (counters : String → Option ℕ) (ks : List String) (k : String)
    → has k (kept_keys counters ks) ≡ (has k ks && is_there (counters k))
has-kept_keys counters [] k = refl
has-kept_keys counters (j ∷ ks) k = elim (Bool-cases (str_eq j k)) [
  | inl same ↦
      ground
        (arith, has-kept_keys counters ks k, ap (λ i. is_there (counters i)) ((eq_iff j k).0 same))
  | inr other ↦ ground (arith, has-kept_keys counters ks k)
]

pub distinct-is_distinct : (ws : List String) → is_distinct (distinct ws) ≡ true
unfolding distinct
distinct-is_distinct [] = refl
distinct-is_distinct (w ∷ ws) = ground (arith, has-distinct w ws, distinct-is_distinct ws)

pub kept-is_distinct :
    (counters : String → Option ℕ) (ks : List String)
    → is_distinct ks ≡ true
    → is_distinct (kept_keys counters ks) ≡ true
kept-is_distinct counters [] apart = refl
kept-is_distinct counters (k ∷ ks) apart =
    ground
      (arith, has-kept_keys counters ks k, kept-is_distinct counters ks (ground (arith, apart)))

pub has-counter :
    (short_id : String) (s : Redis)
    → has (views_key short_id) (kept_keys s.counters (distinct s.names))
      ≡ elim (counter (views_key short_id) s) [ none ↦ false | some _ ↦ true ]
has-counter short_id s =
    has-kept_keys s.counters (distinct s.names) (views_key short_id)
    ∙ ap (λ b. b && is_there (s.counters (views_key short_id)))
        (has-distinct (views_key short_id) s.names)
    ∙ go (has (views_key short_id) s.names) (s.counters (views_key short_id))
  where
    go :
        (b : Bool) (o : Option ℕ)
        → (b && is_there o) ≡ elim (if b then o else none) [ none ↦ false | some _ ↦ true ]
    go true none = refl
    go true (some n) = refl
    go false o = refl

abbrev pub incr : String → Redis → Redis
incr k s = record {
  names = k ∷ s.names;
  counters = λ j. if str_eq k j then incremented (counter j s) else counter j s;
}

pub counter-incr :
    (k : String) (s : Redis) (j : String)
    → counter j (incr k s) ≡ (if str_eq k j then incremented (counter j s) else counter j s)
counter-incr k s j = ground arith

abbrev pub delete : String → Redis → Redis
delete k s = record s { counters = λ j. if str_eq k j then none else s.counters j }

pub counter-delete :
    (k : String) (s : Redis) (j : String)
    → counter j (delete k s) ≡ (if str_eq k j then none else counter j s)
counter-delete k s j = ground arith

abbrev pub redis : ViewStore
redis = record {
  Store = Redis;
  get = counter;
  keys = λ s. kept_keys s.counters (distinct s.names);
  incr = incr;
  delete = delete;
  get-incr = counter-incr;
  get-delete = counter-delete;
  keys-is_distinct =
      λ s. kept-is_distinct s.counters (distinct s.names) (distinct-is_distinct s.names);
  has-keys = has-counter;
}
