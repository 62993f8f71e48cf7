-- ===== src/Snippets/Model.antt =====
-- A database and a cache in memory that have the behaviour which the snippet service relies on.
use mathlib.Core.Option
use swiftpaste.Prelude.{
  ℕ, String, ◌≡◌, ◌⊎◌, refl, ap, Bool, true, false, ◌&&◌, Option, none, some, ◌==◌, str_eq, eq_iff,
  if◌then◌else◌, arith, Bool-cases, inl, inr,
}
use swiftpaste.Models.{
  VisibilityType, Snippet, SnippetVersion, SnippetChange, change, SnippetResponse, count_version,
  set_title, mark_deleted, set_views,
}
use swiftpaste.Snippets.Backend.{Inserted, inserted, refused, answer, set_expiry, Backend}

-- The two unique indexes of `snippets`, and the one of `snippet_versions`.
pub record Tables : Type 0 where
  pub ids : String → Option Snippet
  pub short_ids : String → Option Snippet
  pub versions : String → ℕ → Option SnippetVersion

abbrev pub with_id : String → Option Snippet → Option Snippet
with_id i none = none
with_id i (some x) = some (record x { id = i })

pub with_id-id : (i : String) (o : Option Snippet) {x : Snippet} → with_id i o ≡ some x → x.id ≡ i
with_id-id i none e = ground arith
with_id-id i (some y) e = ground arith

change-with_id :
    (c : SnippetChange) (i : String) (o : Option Snippet)
    → with_id i (Option.map (change c) o) ≡ Option.map (change c) (with_id i o)
change-with_id c i none = refl
change-with_id count_version i (some x) = refl
change-with_id (set_title t) i (some x) = refl
change-with_id (mark_deleted t) i (some x) = refl
change-with_id (set_views n) i (some x) = refl

abbrev pub is_taken {ℓ} : {A : Type ℓ} → Option A → Bool
is_taken none = false
is_taken (some _) = true

abbrev pub default_of : Option VisibilityType → VisibilityType → VisibilityType
default_of none d = d
default_of (some v) d = v

abbrev pub add_snippet : Snippet → Tables → Tables
add_snippet x d = record d {
  ids = λ j. if str_eq x.id j then some x else d.ids j;
  short_ids = λ k. if str_eq x.short_id k then some x else d.short_ids k;
}

abbrev pub insert_snippet : Snippet → Tables → Inserted Tables
insert_snippet x d =
    if is_taken (d.ids x.id)
    then refused "duplicate key value violates snippets_pkey"
    else if is_taken (d.short_ids x.short_id)
    then refused "duplicate key value violates ix_snippets_short_id"
    else inserted (add_snippet x d)

abbrev pub add_version : SnippetVersion → Tables → Tables
add_version v d = record d {
  versions = λ j n. if str_eq v.snippet_id j && v.version == n then some v else d.versions j n;
}

abbrev pub insert_version : SnippetVersion → Tables → Inserted Tables
insert_version v d =
    if is_taken (d.versions v.snippet_id v.version)
    then refused "duplicate key value violates uq_snippet_version"
    else inserted (add_version v d)

abbrev pub update_row : String → SnippetChange → Tables → Tables
update_row i c d = record d {
  ids = λ j. if str_eq i j then Option.map (change c) (d.ids j) else d.ids j;
  short_ids = λ k. Option.map (λ x. if str_eq i x.id then change c x else x) (d.short_ids k);
}

abbrev pub update_version : String → ℕ → ℕ → Tables → Tables
update_version i n t d = record d {
  versions = λ j m.
      if str_eq i j && n == m then Option.map (set_expiry t) (d.versions j m) else d.versions j m;
}

module _ (v : SnippetVersion) (d : Tables) where
  pub insert_version_lem : {d' : Tables} → insert_version v d ≡ inserted d' → d' ≡ add_version v d
  insert_version_lem e = ground arith

module _ (x : Snippet) (d : Tables) where
  pub insert_snippet_lem :
      {d' : Tables}
      → insert_snippet x d ≡ inserted d'
      → (d' ≡ add_snippet x d) × (d.ids x.id ≡ none) × (d.short_ids x.short_id ≡ none)
  insert_snippet_lem e = ground arith

pub inserted_version :
    (v : SnippetVersion) (d : Tables)
    → d.versions v.snippet_id v.version ≡ none
    → (d' : Tables) × (insert_version v d ≡ inserted d')
inserted_version v d free = (add_version v d, ground arith)

pub setex_either :
    (k j : String) (p : SnippetResponse) (c : String → Option SnippetResponse)
    → ((if str_eq k j then some p else c j) ≡ c j) ⊎ ((if str_eq k j then some p else c j) ≡ some p)
setex_either k j p c = elim (Bool-cases (str_eq k j)) [
  | inl same ↦ inr (rw same refl)
  | inr other ↦ inl (rw other refl)
]

pub update-with_id :
    (i : String) (c : SnippetChange) (d : Tables) (j : String)
    → with_id j (if str_eq i j then Option.map (change c) (d.ids j) else d.ids j)
      ≡ (if str_eq i j then Option.map (change c) (with_id j (d.ids j)) else with_id j (d.ids j))
update-with_id i c d j = elim (Bool-cases (str_eq i j)) [
  | inl same ↦ rw same (change-with_id c j (d.ids j))
  | inr other ↦ rw other refl
]

pub insert-with_id :
    (x : Snippet) (d : Tables) (j : String)
    → with_id j (if str_eq x.id j then some x else d.ids j)
      ≡ (if str_eq x.id j then some x else with_id j (d.ids j))
insert-with_id x d j = elim (Bool-cases (str_eq x.id j)) [
  | inl same ↦ rw (same, (eq_iff x.id j).0 same) refl
  | inr other ↦ rw other refl
]

pub answer_injective : {A : Type 0} {a b : A} → answer a ≡ answer b → b ≡ a
answer_injective e = cc

abbrev pub in_memory : Backend
in_memory = record {
  Db = Tables;
  by_id = λ d i. with_id i (d.ids i);
  by_short_id = λ d k. d.short_ids k;
  version_row = λ d i n. d.versions i n;
  author = λ d i. record { id = i; email = "a@b.c"; username = "ann" };
  id-by_id = λ d i e. with_id-id i (d.ids i) e;
  insert_snippet = insert_snippet;
  insert_version = insert_version;
  update_snippet_row = update_row;
  update_expiry = update_version;
  insert_default = default_of;
  insert_default-none = λ d. refl;
  insert_default-some = λ v d. refl;
  by_id-update_snippet_row = λ i c d j. update-with_id i c d j;
  by_short_id-update_snippet_row = λ i c d k. refl;
  version_row-update_snippet_row = λ i c d j n. refl;
  by_id-update_expiry = λ i n t d j. refl;
  by_short_id-update_expiry = λ i n t d k. refl;
  version_row-update_expiry = λ i n t d j m. refl;
  by_id-insert_version = λ v d j e. rw (insert_version_lem v d e) refl;
  by_short_id-insert_version = λ v d k e. rw (insert_version_lem v d e) refl;
  version_row-insert_version = λ v d j n e. rw (insert_version_lem v d e) refl;
  insert_version-inserted = λ v d p free. inserted_version v d free;
  by_id-insert_snippet = λ x d j e. rw ((insert_snippet_lem x d e).0) (insert-with_id x d j);
  by_short_id-insert_snippet = λ x d k e. rw ((insert_snippet_lem x d e).0) refl;
  version_row-insert_snippet = λ x d j n e. rw ((insert_snippet_lem x d e).0) refl;
  insert_snippet-fresh =
      λ x d e. (ap (with_id x.id) (insert_snippet_lem x d e).1, (insert_snippet_lem x d e).2);
  Cache = String → Option SnippetResponse;
  Payload = SnippetResponse;
  cached = λ c k. c k;
  redis_get = λ k c. (answer (c k), c);
  redis_setex = λ k ttl p c. (answer tt, λ j. if str_eq k j then some p else c j);
  redis_get-answer = λ k c e. answer_injective e;
  cached-redis_get = λ k c j. refl;
  cached-redis_setex = λ k ttl p c j e. refl;
  redis_setex-either = λ k ttl p c j. setex_either k j p c;
  serialize = λ r. r;
  deserialize = λ r. some r;
  deserialize-serialize = λ r. refl;
  is_truthy = λ r. true;
  is_truthy-serialize = λ r. refl;
  Expiry = String → Option ℕ;
  expiry_score = λ e k. e k;
  expiry_zadd = λ k n e j. if str_eq k j then some n else e j;
  expiry_score-expiry_zadd = λ k n e j. refl;
}
