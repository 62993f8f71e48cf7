-- ===== src/Routes/Searching.antt =====
-- The route that searches, of app/api/v1/routes/snippet.py, behind the limiter. FastAPI lets no empty query
-- through to it.
use swiftpaste.Prelude.{
  ℕ, String, ◌≡◌, ◌≢◌, ◌⊎◌, refl, arith, true, Option, some, List, [], ◌∷◌, ◌==◌, ◌&&◌, Bool-cases,
  Option-cases, inl, inr,
}
use swiftpaste.Prelude.Int.{pos}
use swiftpaste.Core.Config.{Settings}
use swiftpaste.Core.Errors.{Result, ok, err}
use swiftpaste.RateLimit.Access.{
  Hashes, or_default, rate_key, run_script, rate_limiter, caller, unless_none, rate_limit,
}
use swiftpaste.Models.{User, Snippet, SnippetVersion}
use swiftpaste.Snippets.Backend.{Backend}
use swiftpaste.Snippets.View.{is_private, is_none}
use swiftpaste.Search.{IndexStore, tokenize}
use swiftpaste.Search.Results.{
  Params, Page, PageStore, Finder, Texts, result_key, index_keys, picked, onto, collect, State,
  kept_page, store_page, fresh_page, search_snippets,
}
use swiftpaste.Search.Pages.{List-cases}
use swiftpaste.Views.{ViewStore, increment_snippet_views}
use swiftpaste.Routes.{Request, Response, respond, user_id}
use swiftpaste.Routes.Statuses.{status_of, one_of, Answers}

module _ (H : Hashes) (V : ViewStore) (I : IndexStore) (B : Backend) (P : PageStore)
    (F : Finder I B) (texts : Texts) where
  -- `search`, a word that has a meaning here.
  unfoldable pub search_route :
      Settings
      → Request
      → String
      → Params
      → Option User
      → B.Db
      → I.Store
      → H.Store × State V I B P F texts
      → Response Page × (H.Store × State V I B P F texts)
  search_route settings q query params user d index state =
      let (result, state') =
        rate_limit H settings q.clock (some 5) (some 1) (user_id user) q.host
          (λ st. search_snippets V I B P F texts query user params d index st) state in
      (respond q.request_id 200 result, state')

module _ (V : ViewStore) (B : Backend) (id : Option String) where
  onto-Answers :
      (r : _) (rest : Result (List _) × V.Store)
      → Answers id 200 (200 ∷ 500 ∷ []) rest.0
      → Answers id 200 (200 ∷ 500 ∷ []) (onto V B r rest).0
  onto-Answers r (ok rs, s) h = refl
  onto-Answers r (err e, s) h = h

  collect-Answers :
      (d : B.Db) (user : Option User) (rows : List (Snippet × SnippetVersion)) (s : V.Store)
      → Answers id 200 (200 ∷ 500 ∷ []) (collect V B d user rows s).0
  unfolding collect
  collect-Answers d user [] s = refl
  collect-Answers d user ((x, v) ∷ rows) s =
      elim (Bool-cases (is_private v.visibility && is_none user)) [
        | inl hidden ↦ rw (hidden, collect) (collect-Answers d user rows s)
        | inr seen ↦ elim (Option-cases v.content) [
          | inl null ↦ rw (seen, null, collect) refl
          | inr (content, has) ↦
              rw (seen, has, collect)
                (onto-Answers _ (collect V B d user rows (increment_snippet_views V x.short_id s))
                  (collect-Answers d user rows (increment_snippet_views V x.short_id s)))
        ]
      ]

module _ (V : ViewStore) (I : IndexStore) (B : Backend) (P : PageStore) (F : Finder I B)
    (texts : Texts) (id : Option String) where
  store_page-Answers :
      (key : String) (params : Params) (pages : P.Store) (rows : Result (List _) × V.Store)
      → Answers id 200 (200 ∷ 500 ∷ []) rows.0
      → Answers id 200 (200 ∷ 500 ∷ []) (store_page V I B P F texts key params pages rows).0
  store_page-Answers key params pages (ok rs, s) h = refl
  store_page-Answers key params pages (err e, s) h = h

  kept_page-Answers :
      (params : Params) (payload : P.Payload) (pages : P.Store) (s : V.Store)
      → Answers id 200 (200 ∷ 500 ∷ []) (kept_page V I B P F texts params payload (pages, s)).0
  unfolding kept_page
  kept_page-Answers params payload pages s = elim (Option-cases (P.loads payload)) [
    | inl broken ↦ rw (broken, kept_page) refl
    | inr (read, is) ↦ rw (is, kept_page) refl
  ]

  fresh_page-Answers :
      (query : String) (user : Option User) (params : Params) (d : B.Db) (index : I.Store)
      (pages : P.Store) (s : V.Store)
      → Answers id 200
          (200 ∷ 500 ∷ [])
          (fresh_page V I B P F texts query user params d index (pages, s)).0
  unfolding fresh_page
  fresh_page-Answers query user params d index pages s =
      elim (List-cases (tokenize texts.findall query)) [
        | inl none_ ↦ rw (none_, fresh_page) refl
        | inr (t, ts, some_) ↦ elim (List-cases (F.sinter (index_keys (t ∷ ts)) index)) [
          | inl empty ↦ rw (some_, empty, fresh_page) refl
          | inr (i, ids, found) ↦
              rw (some_, found, fresh_page)
                (store_page-Answers (result_key (texts.lower query) params) params pages
                  (collect V B d user (picked (i ∷ ids) (F.ranked d query)) s)
                  (collect-Answers V B id d user (picked (i ∷ ids) (F.ranked d query)) s))
        ]
      ]

  search_snippets-Answers :
      (query : String) (user : Option User) (params : Params) (d : B.Db) (index : I.Store)
      (pages : P.Store) (s : V.Store)
      → Answers id 200
          (200 ∷ 500 ∷ [])
          (search_snippets V I B P F texts query user params d index (pages, s)).0
  unfolding search_snippets
  search_snippets-Answers query user params d index pages s =
      elim (Bool-cases (texts.is_blank query)) [
        | inl blank ↦ rw (blank, search_snippets) refl
        | inr words ↦ elim (Option-cases (P.get (result_key (texts.lower query) params) pages)) [
          | inl miss ↦
              rw (words, miss, search_snippets)
                (fresh_page-Answers query user params d index pages s)
          | inr (payload, hit) ↦
              rw (words, hit, search_snippets) (kept_page-Answers params payload pages s)
        ]
      ]

not_refused :
    (n : ℕ)
    → one_of n (200 ∷ 500 ∷ []) ≡ true
    → (one_of n (200 ∷ 429 ∷ 500 ∷ []) ≡ true) × (n ≢ 429)
not_refused n h = (ground (arith, h), λ e. cc (rw e at h))

module _ (H : Hashes) (V : ViewStore) (I : IndexStore) (B : Backend) (P : PageStore)
    (F : Finder I B) (texts : Texts) (settings : Settings) where
  -- Whatever is searched for, by anybody, and whatever the stores hold, the route answers with 200, 429 or 500;
  -- where it answers with 429, no page is kept and no view counted.
  pub search_answers :
      (q : Request) (query : String) (params : Params) (user : Option User) (d : B.Db)
      (index : I.Store) (hashes : H.Store) (pages : P.Store) (s : V.Store)
      → let (answer, (_, state)) =
          search_route H V I B P F texts settings q query params user d index
            (hashes, (pages, s)) in
        (one_of (status_of answer) (200 ∷ 429 ∷ 500 ∷ []) ≡ true)
        × ((status_of answer ≢ 429) ⊎ (state ≡ (pages, s)))
  unfolding search_route rate_limit rate_limiter
  search_answers q query params user d index hashes pages s =
      elim (Bool-cases (
        (run_script H (rate_key (caller (user_id user) q.host))
          (pos (or_default (some (unless_none (some 5) settings.capacity)) settings.capacity))
          (pos (or_default (some (unless_none (some 1) settings.refill_rate)) settings.refill_rate))
          q.clock hashes).0
        == 0)) [
          | inl refused ↦ rw (refused, search_route, rate_limit, rate_limiter) (refl, inr refl)
          | inr allowed ↦
              rw (allowed, search_route, rate_limit, rate_limiter)
                (let (answers, passed) = not_refused _ (
                    search_snippets-Answers V I B P F texts q.request_id query user params d index
                      pages s) in
                  (answers, inl passed))
        ]
