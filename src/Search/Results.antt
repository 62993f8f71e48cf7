-- ===== src/Search/Results.antt =====
-- `search_snippets` of app/services/snippet_service.py: the sets of the index pick the snippets, PostgreSQL
-- the versions of them, and a page is kept in Redis for a minute.
use swiftpaste.Prelude.{
  ℕ, String, ◌≡◌, Bool, true, ◌&&◌, Option, none, some, List, [], ◌∷◌, str_eq, str_append,
  if◌then◌else◌,
}
use swiftpaste.Prelude.Text.{decimal}
use swiftpaste.Prelude.Lists.{length}
use swiftpaste.Core.Errors.{Result, ok, err, other}
use swiftpaste.Models.{Snippet, SnippetVersion, User, SnippetResponse}
use swiftpaste.Snippets.Backend.{Backend}
use swiftpaste.Snippets.Common.{response}
use swiftpaste.Snippets.View.{is_private, is_none}
use swiftpaste.Search.{IndexStore, has, index_key, tokenize}
use swiftpaste.Views.{ViewStore, increment_snippet_views}

-- `params` of fastapi_pagination
pub record Params : Type 0 where
  pub page : ℕ
  pub size : ℕ

pub record Page : Type 0 where
  pub items : List SnippetResponse
  pub total : ℕ
  pub params : Params

-- The pages that Redis keeps, and the JSON that is made of one and read back; `none` raises.
pub record PageStore : Type 1 where
  pub Store : Type 0
  pub Payload : Type 0
  pub get : String → Store → Option Payload
  pub setex : String → ℕ → Payload → Store → Store
  pub dumps : List SnippetResponse → ℕ → Payload
  pub loads : Payload → Option (List SnippetResponse × ℕ)
  pub get-setex :
      (k : String) (ttl : ℕ) (p : Payload) (s : Store) (j : String)
      → get j (setex k ttl p s) ≡ (if str_eq k j then some p else get j s)
  pub loads-dumps :
      (items : List SnippetResponse) (total : ℕ) → loads (dumps items total) ≡ some (items, total)

abbrev pub all {ℓ} : {A : Type ℓ} → (A → Bool) → List A → Bool
all p [] = true
all p (a ∷ l) = p a && all p l

-- What PostgreSQL and the other commands of Redis answer. `sinter` is SINTER; `ranked` are the versions that
-- match a query, joined with their snippets that are not marked deleted, in the order of their rank.
pub record Finder (I : IndexStore) (B : Backend) : Type 0 where
  pub sinter : List String → I.Store → List String
  pub ranked : B.Db → String → List (Snippet × SnippetVersion)
  pub has-sinter :
      (key : String) (keys : List String) (s : I.Store) (m : String)
      → has m (sinter (key ∷ keys) s) ≡ all (λ k. I.is_member s k m) (key ∷ keys)

-- `query.strip()` that is empty, and `query.lower()`
pub record Texts : Type 0 where
  pub is_blank : String → Bool
  pub lower : String → String
  pub findall : String → List String

abbrev pub result_key : String → Params → String
result_key lowered params = str_append "search:result:" (
    str_append lowered
      (str_append ":" (str_append (decimal params.page) (str_append ":" (decimal params.size)))))

abbrev pub index_keys : List String → List String
index_keys [] = []
index_keys (t ∷ ts) = index_key t ∷ index_keys ts

-- `Snippet.short_id.in_(short_ids)`
unfoldable pub picked :
    List String → List (Snippet × SnippetVersion) → List (Snippet × SnippetVersion)
picked short_ids [] = []
picked short_ids ((x, v) ∷ rows) =
    let rest = picked short_ids rows in if has x.short_id short_ids then (x, v) ∷ rest else rest

abbrev pub empty_page : Params → Page
empty_page params = record { items = []; total = 0; params = params }

module _ (V : ViewStore) where
  -- The views of the items of a page that was kept.
  unfoldable pub count_views : List SnippetResponse → V.Store → V.Store
  count_views [] s = s
  count_views (item ∷ items) s = count_views items (increment_snippet_views V item.short_id s)

module _ (V : ViewStore) (B : Backend) where
  abbrev pub onto :
      SnippetResponse
      → Result (List SnippetResponse) × V.Store
      → Result (List SnippetResponse) × V.Store
  onto r (err e, s) = (err e, s)
  onto r (ok rs, s) = (ok (r ∷ rs), s)

  -- The loop over the versions.
  unfoldable pub collect :
      B.Db
      → Option User
      → List (Snippet × SnippetVersion)
      → V.Store
      → Result (List SnippetResponse) × V.Store
  collect d user [] s = (ok [], s)
  collect d user ((x, v) ∷ rows) s =
      let skipped = collect d user rows s in
      let counted = collect d user rows (increment_snippet_views V x.short_id s) in
      if is_private v.visibility && is_none user
      then skipped
      else elim (response x v (B.author d x.author_id)) [
        | err e ↦ (err e, s)
        | ok r ↦ onto r counted
      ]

module _ (V : ViewStore) (I : IndexStore) (B : Backend) (P : PageStore) (F : Finder I B)
    (texts : Texts) where
  abbrev pub State : Type 0
  State = P.Store × V.Store

  -- A page that was kept, or the ValidationError of its JSON.
  unfoldable pub kept_page : Params → P.Payload → State → Result Page × State
  unfolding count_views
  kept_page params payload (pages, views) = elim (P.loads payload) [
    | none ↦ (err (other "ValidationError"), (pages, views))
    | some (items, total) ↦ (
      ok (record { items = items; total = total; params = params }),
      (pages, count_views V items views),
    )
  ]

  abbrev pub store_page :
      String → Params → P.Store → Result (List SnippetResponse) × V.Store → Result Page × State
  store_page key params pages (err e, views) = (err e, (pages, views))
  store_page key params pages (ok responses, views) = (
    ok (record { items = responses; total = length responses; params = params }),
    (P.setex key 60 (P.dumps responses (length responses)) pages, views),
  )

  unfoldable pub fresh_page :
      String → Option User → Params → B.Db → I.Store → State → Result Page × State
  unfolding collect tokenize picked
  fresh_page query user params d index (pages, views) = elim (tokenize texts.findall query) [
    | [] ↦ (ok (empty_page params), (pages, views))
    | token ∷ tokens ↦ elim (F.sinter (index_keys (token ∷ tokens)) index) [
      | [] ↦ (ok (empty_page params), (pages, views))
      | id ∷ ids ↦
          store_page (result_key (texts.lower query) params) params pages
            (collect V B d user (picked (id ∷ ids) (F.ranked d query)) views)
    ]
  ]

  unfoldable pub search_snippets :
      String → Option User → Params → B.Db → I.Store → State → Result Page × State
  unfolding kept_page fresh_page
  search_snippets query user params d index (pages, views) =
      if texts.is_blank query
      then (ok (empty_page params), (pages, views))
      else elim (P.get (result_key (texts.lower query) params) pages) [
        | some payload ↦ kept_page params payload (pages, views)
        | none ↦ fresh_page query user params d index (pages, views)
      ]
