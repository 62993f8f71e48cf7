-- ===== src/Search/Counts.antt =====
-- The views that a search counts.
use swiftpaste.Prelude.{
  ℕ, suc, ◌+◌, ◌≤◌, String, ◌≡◌, refl, sym, Bool, true, false, ◌&&◌, Option, none, some, List, [],
  ◌∷◌, str_eq, if◌then◌else◌, arith, Bool-cases, Option-cases, inl, inr,
}
use swiftpaste.Prelude.Text.{str_eq-str_append}
use swiftpaste.Core.Errors.{Result, ok, err}
use swiftpaste.Models.{Snippet, SnippetVersion, User, SnippetResponse}
use swiftpaste.Snippets.Backend.{Backend}
use swiftpaste.Snippets.Common.{response}
use swiftpaste.Snippets.View.{is_private, is_none}
use swiftpaste.Snippets.Retries.{Result-cases}
use swiftpaste.Search.{IndexStore, tokenize}
use swiftpaste.Search.Results.{
  Params, PageStore, Finder, Texts, result_key, index_keys, picked, count_views, onto, collect,
  kept_page, fresh_page, search_snippets,
}
use swiftpaste.Views.{ViewStore, views_key, incremented, increment_snippet_views}
use swiftpaste.Views.Gains.{or_zero}
use swiftpaste.Search.Pages.{
  response-Keys, List-cases, items_of, items-store_page, views-store_page,
}

-- How often a short id is among the items.
unfoldable pub occurrences : String → List SnippetResponse → ℕ
occurrences short_id [] = 0
occurrences short_id (r ∷ rs) =
    let rest = occurrences short_id rs in if str_eq r.short_id short_id then suc rest else rest

-- The views that an answer adds to those of a short id; an error has added those before it.
abbrev pub Counted : String → ℕ → ℕ → Result (List SnippetResponse) → Type 0
Counted short_id before after (ok items) = after ≡ before + occurrences short_id items
Counted short_id before after (err e) = before ≤ after

module _ (V : ViewStore) where
  abbrev pub views : V.Store → String → ℕ
  views s short_id = or_zero (V.get (views_key short_id) s)

  views-increment :
      (viewed : String) (s : V.Store) (short_id : String)
      → views (increment_snippet_views V viewed s) short_id
        ≡ (if str_eq viewed short_id then suc (views s short_id) else views s short_id)
  views-increment viewed s short_id =
      rw
        (
          V.get-incr (views_key viewed) s (views_key short_id),
          str_eq-str_append "snippet:views:" viewed short_id,
        )
        (go (str_eq viewed short_id) (V.get (views_key short_id) s))
    where
      go :
          (b : Bool) (o : Option ℕ)
          → or_zero (if b then incremented o else o) ≡ (if b then suc (or_zero o) else or_zero o)
      go true none = refl
      go true (some n) = refl
      go false o = refl

  count_views_lem :
      (items : List SnippetResponse) (s : V.Store) (short_id : String)
      → views (count_views V items s) short_id ≡ views s short_id + occurrences short_id items
  unfolding count_views occurrences
  count_views_lem [] s short_id = omega arith
  count_views_lem (r ∷ rs) s short_id = ground (
    arith,
    count_views_lem rs (increment_snippet_views V r.short_id s) short_id,
    views-increment r.short_id s short_id,
  )

module _ (V : ViewStore) (B : Backend) where
  Counted-onto :
      (short_id : String) (r : SnippetResponse) (before : ℕ)
      (rest : Result (List SnippetResponse) × V.Store)
      → Counted short_id
          (if str_eq r.short_id short_id then suc before else before)
          (views V rest.1 short_id)
          rest.0
      → Counted short_id before (views V (onto V B r rest).1 short_id) (onto V B r rest).0
  unfolding occurrences
  Counted-onto short_id r before (ok rs, s) h = ground (arith, h)
  Counted-onto short_id r before (err e, s) h = ground (arith, h)

  collect_counts :
      (d : B.Db) (user : Option User) (rows : List (Snippet × SnippetVersion)) (s : V.Store)
      (short_id : String)
      → let (result, s') = collect V B d user rows s in
        Counted short_id (views V s short_id) (views V s' short_id) result
  unfolding collect occurrences
  collect_counts d user [] s short_id = omega arith
  collect_counts d user ((x, v) ∷ rows) s short_id =
      elim (Bool-cases (is_private v.visibility && is_none user)) [
        | inl hidden ↦ rw (hidden, collect) (collect_counts d user rows s short_id)
        | inr seen ↦ elim (Result-cases (response x v (B.author d x.author_id))) [
          | inl (e, failed) ↦ rw (seen, failed, collect) (omega arith)
          | inr (r, made) ↦
              let keys = response-Keys x v (B.author d x.author_id) made in
              let s' = increment_snippet_views V x.short_id s in
              rw (seen, made, collect)
                (Counted-onto short_id r (views V s short_id) (collect V B d user rows s') (
                  rw (keys.0, sym (views-increment V x.short_id s short_id))
                    (collect_counts d user rows s' short_id)))
        ]
      ]

module _ (V : ViewStore) (I : IndexStore) (B : Backend) (P : PageStore) (F : Finder I B)
    (texts : Texts) where
  abbrev key_of : String → Params → String
  key_of query params = result_key (texts.lower query) params

  fresh_page_counts :
      (query : String) (user : Option User) (params : Params) (d : B.Db) (index : I.Store)
      (pages : P.Store) (s : V.Store) (short_id : String)
      → let (result, (_, s')) = fresh_page V I B P F texts query user params d index (pages, s) in
        Counted short_id (views V s short_id) (views V s' short_id) (items_of result)
  unfolding fresh_page occurrences
  fresh_page_counts query user params d index pages s short_id =
      elim (List-cases (tokenize texts.findall query)) [
        | inl none_ ↦ rw (none_, fresh_page) (omega arith)
        | inr (t, ts, some_) ↦ elim (List-cases (F.sinter (index_keys (t ∷ ts)) index)) [
          | inl empty ↦ rw (some_, empty, fresh_page) (omega arith)
          | inr (id, ids, found) ↦
              let rows = collect V B d user (picked (id ∷ ids) (F.ranked d query)) s in
              rw (some_, found, fresh_page)
                (rw
                  (
                    items-store_page V I B P F texts (key_of query params) params pages rows,
                    views-store_page V I B P F texts (key_of query params) params pages rows,
                  )
                  (collect_counts V B d user (picked (id ∷ ids) (F.ranked d query)) s short_id))
        ]
      ]

  -- A search that answers counts one view for each item that it shows, whether the page was kept or not; one
  -- that raises takes none back.
  pub search_counts_views :
      (query : String) (user : Option User) (params : Params) (d : B.Db) (index : I.Store)
      (pages : P.Store) (s : V.Store) (short_id : String)
      → let (result, (_, s')) =
          search_snippets V I B P F texts query user params d index (pages, s) in
        Counted short_id (views V s short_id) (views V s' short_id) (items_of result)
  unfolding search_snippets kept_page occurrences
  search_counts_views query user params d index pages s short_id =
      elim (Bool-cases (texts.is_blank query)) [
        | inl blank ↦ rw (blank, search_snippets) (omega arith)
        | inr words ↦ elim (Option-cases (P.get (key_of query params) pages)) [
          | inl miss ↦
              rw (words, miss, search_snippets)
                (fresh_page_counts query user params d index pages s short_id)
          | inr (payload, hit) ↦ elim (Option-cases (P.loads payload)) [
            | inl broken ↦ rw (words, hit, broken, search_snippets, kept_page) (omega arith)
            | inr ((items, total), read) ↦
                rw (words, hit, read, search_snippets, kept_page)
                  (count_views_lem V items s short_id)
          ]
        ]
      ]
