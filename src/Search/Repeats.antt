-- ===== src/Search/Repeats.antt =====
-- A page that has been answered is answered again.
use text.Mathlib.TextPositions.{eq_refl}
use swiftpaste.Prelude.{
  ℕ, String, ◌≡◌, refl, ◌∙◌, sym, ap, true, false, Option, none, some, List, [], ◌∷◌, Bool-cases,
  Option-cases, inl, inr,
}
use swiftpaste.Core.Errors.{Result, ok, err}
use swiftpaste.Models.{User, SnippetResponse}
use swiftpaste.Snippets.Backend.{Backend}
use swiftpaste.Search.{IndexStore, tokenize}
use swiftpaste.Prelude.Lists.{length}
use swiftpaste.Search.Results.{
  Params, Page, PageStore, Finder, Texts, empty_page, result_key, index_keys, picked, count_views,
  collect, State, kept_page, store_page, fresh_page, search_snippets,
}
use swiftpaste.Views.{ViewStore}
use swiftpaste.Search.Pages.{List-cases, items_of, items-store_page}

module _ (V : ViewStore) (I : IndexStore) (B : Backend) (P : PageStore) (F : Finder I B)
    (texts : Texts) where
  abbrev key_of : String → Params → String
  key_of query params = result_key (texts.lower query) params

  -- The same search again, by anybody.
  abbrev again :
      String
      → Option User
      → Params
      → B.Db
      → I.Store
      → Result Page × State V I B P F texts
      → Result Page
  again query other params d index (result, state) =
      (search_snippets V I B P F texts query other params d index state).0

  repeats :
      (query : String) (user other : Option User) (params : Params) (d : B.Db) (index : I.Store)
      (st st' : State V I B P F texts) {o : Result Page}
      → search_snippets V I B P F texts query user params d index st ≡ (o, st')
      → (search_snippets V I B P F texts query other params d index st').0 ≡ o
      → (search_snippets V I B P F texts query other params d index
          (search_snippets V I B P F texts query user params d index st).1).0
        ≡ (search_snippets V I B P F texts query user params d index st).0
  repeats query user other params d index st st' first second =
      ap (again query other params d index) first
      ∙ second
      ∙ sym (ap (λ (p : Result Page × State V I B P F texts). p.0) first)

  -- A stored page is found under its key.
  kept_again :
      (query : String) (other : Option User) (params : Params) (d : B.Db) (index : I.Store)
      (pages : P.Store) (rs : List SnippetResponse) (s : V.Store)
      → texts.is_blank query ≡ false
      → (search_snippets V I B P F texts query other params d index
          (P.setex (key_of query params) 60 (P.dumps rs (length rs)) pages, s)).0
        ≡ ok (record { items = rs; total = length rs; params = params })
  unfolding search_snippets kept_page
  kept_again query other params d index pages rs s words =
      let payload = P.dumps rs (length rs) in
      let kept : P.get (key_of query params) (P.setex (key_of query params) 60 payload pages)
          ≡ some payload =
        P.get-setex (key_of query params) 60 payload pages (key_of query params)
        ∙ rw (eq_refl (key_of query params)) refl in
      rw (words, kept, P.loads-dumps rs (length rs), search_snippets, kept_page) refl

  -- Where nothing is stored, the answer does not depend on the caller.
  module _ (query : String) (params : Params) (d : B.Db) (index : I.Store) (pages : P.Store)
      (s : V.Store) where
    answers_blank :
        (user : Option User)
        → texts.is_blank query ≡ true
        → search_snippets V I B P F texts query user params d index (pages, s)
          ≡ (ok (empty_page params), (pages, s))
    unfolding search_snippets
    answers_blank user blank = rw (blank, search_snippets) refl

    answers_kept :
        (user : Option User) {payload : P.Payload}
        → texts.is_blank query ≡ false
        → P.get (key_of query params) pages ≡ some payload
        → search_snippets V I B P F texts query user params d index (pages, s)
          ≡ kept_page V I B P F texts params payload (pages, s)
    unfolding search_snippets
    answers_kept user words hit = rw (words, hit, search_snippets) refl

    answers_fresh :
        (user : Option User)
        → texts.is_blank query ≡ false
        → P.get (key_of query params) pages ≡ none
        → search_snippets V I B P F texts query user params d index (pages, s)
          ≡ fresh_page V I B P F texts query user params d index (pages, s)
    unfolding search_snippets
    answers_fresh user words miss = rw (words, miss, search_snippets) refl

    fresh-no_words :
        (user : Option User)
        → tokenize texts.findall query ≡ []
        → fresh_page V I B P F texts query user params d index (pages, s)
          ≡ (ok (empty_page params), (pages, s))
    unfolding fresh_page
    fresh-no_words user none_ = rw (none_, fresh_page) refl

    fresh-no_ids :
        (user : Option User) {t : String} {ts : List String}
        → tokenize texts.findall query ≡ t ∷ ts
        → F.sinter (index_keys (t ∷ ts)) index ≡ []
        → fresh_page V I B P F texts query user params d index (pages, s)
          ≡ (ok (empty_page params), (pages, s))
    unfolding fresh_page
    fresh-no_ids user some_ empty = rw (some_, empty, fresh_page) refl

    fresh-found :
        (user : Option User) {t id : String} {ts ids : List String}
        → tokenize texts.findall query ≡ t ∷ ts
        → F.sinter (index_keys (t ∷ ts)) index ≡ id ∷ ids
        → fresh_page V I B P F texts query user params d index (pages, s)
          ≡ store_page V I B P F texts
              (key_of query params)
              params
              pages
              (collect V B d user (picked (id ∷ ids) (F.ranked d query)) s)
    unfolding fresh_page
    fresh-found user some_ found = rw (some_, found, fresh_page) refl

    kept_page-read :
        {payload : P.Payload} {items : List SnippetResponse} {total : ℕ}
        → P.loads payload ≡ some (items, total)
        → kept_page V I B P F texts params payload (pages, s) ≡ (
          ok (record { items = items; total = total; params = params }),
          (pages, count_views V items s),
        )
    unfolding kept_page
    kept_page-read read = rw (read, kept_page) refl

    kept_page-broken :
        {payload : P.Payload} {page : Page}
        → P.loads payload ≡ none
        → (kept_page V I B P F texts params payload (pages, s)).0 ≡ ok page
        → ⊥
    unfolding kept_page
    kept_page-broken broken answered = cc (rw (broken, kept_page) at answered)

  -- An answer that may be stored.
  store_page-repeats :
      (query : String) (user other : Option User) (params : Params) (d : B.Db) (index : I.Store)
      (pages : P.Store) (s : V.Store) (rows : Result (List SnippetResponse) × V.Store) {page : Page}
      → texts.is_blank query ≡ false
      → search_snippets V I B P F texts query user params d index (pages, s)
        ≡ store_page V I B P F texts (key_of query params) params pages rows
      → (search_snippets V I B P F texts query user params d index (pages, s)).0 ≡ ok page
      → (search_snippets V I B P F texts query other params d index
          (search_snippets V I B P F texts query user params d index (pages, s)).1).0
        ≡ (search_snippets V I B P F texts query user params d index (pages, s)).0
  store_page-repeats query user other params d index pages s (err e, views') words first answered =
      cc (sym (ap (λ (p : Result Page × State V I B P F texts). p.0) first) ∙ answered)
  store_page-repeats query user other params d index pages s (ok rs, views') words first answered =
      repeats query user other params d index (pages, s) _ first
        (kept_again query other params d index pages rs views' words)

  -- Once a search has been answered, the same search, with the page and the size, gets that page, whoever
  -- asks: a caller with no user is shown the private versions that a user has been shown.
  pub search_repeats_for_all :
      (query : String) (user other : Option User) (params : Params) (d : B.Db) (index : I.Store)
      (pages : P.Store) (s : V.Store) {page : Page}
      → (search_snippets V I B P F texts query user params d index (pages, s)).0 ≡ ok page
      → (search_snippets V I B P F texts query other params d index
          (search_snippets V I B P F texts query user params d index (pages, s)).1).0
        ≡ ok page
  search_repeats_for_all query user other params d index pages s {page} answered =
      let fst = λ (p : Result Page × State V I B P F texts). p.0 in
      let again_empty =
        λ (e : (u : Option User)
            → search_snippets V I B P F texts query u params d index (pages, s)
              ≡ (ok (empty_page params), (pages, s))).
          repeats query user other params d index (pages, s) (pages, s) (e user) (ap fst (e other))
          ∙ answered in
      elim (Bool-cases (texts.is_blank query)) [
        | inl blank ↦ again_empty (λ u. answers_blank query params d index pages s u blank)
        | inr words ↦ elim (Option-cases (P.get (key_of query params) pages)) [
          | inr (payload, hit) ↦
              let first = answers_kept query params d index pages s user words hit in
              elim (Option-cases (P.loads payload)) [
                | inl broken ↦
                    elim (kept_page-broken query params d index pages s broken
                      (sym (ap fst first) ∙ answered)) [ ]
                | inr ((items, total), read) ↦
                    let s' = count_views V items s in
                    repeats query user other params d index (pages, s) (pages, s')
                      (first ∙ kept_page-read query params d index pages s read)
                      (ap fst (
                        answers_kept query params d index pages s' other words hit
                        ∙ kept_page-read query params d index pages s' read))
                    ∙ answered
              ]
          | inl miss ↦ elim (List-cases (tokenize texts.findall query)) [
            | inl none_ ↦ again_empty (λ u.
                answers_fresh query params d index pages s u words miss
                ∙ fresh-no_words query params d index pages s u none_)
            | inr (t, ts, some_) ↦ elim (List-cases (F.sinter (index_keys (t ∷ ts)) index)) [
              | inl empty ↦ again_empty (λ u.
                  answers_fresh query params d index pages s u words miss
                  ∙ fresh-no_ids query params d index pages s u some_ empty)
              | inr (id, ids, found) ↦
                  store_page-repeats query user other params d index pages s
                    (collect V B d user (picked (id ∷ ids) (F.ranked d query)) s) words
                    (answers_fresh query params d index pages s user words miss
                      ∙ fresh-found query params d index pages s user some_ found)
                    answered
                  ∙ answered
            ]
          ]
        ]
      ]

  -- Where Redis keeps neither page, two searches for the same words show the same items, whatever page and
  -- size they ask for.
  pub search_ignores_params :
      (query : String) (user : Option User) (one two : Params) (d : B.Db) (index : I.Store)
      (pages : P.Store) (s : V.Store)
      → P.get (result_key (texts.lower query) one) pages ≡ none
      → P.get (result_key (texts.lower query) two) pages ≡ none
      → items_of (search_snippets V I B P F texts query user one d index (pages, s)).0
        ≡ items_of (search_snippets V I B P F texts query user two d index (pages, s)).0
  search_ignores_params query user one two d index pages s miss miss' =
      let fst = λ (p : Result Page × State V I B P F texts). items_of p.0 in
      elim (Bool-cases (texts.is_blank query)) [
        | inl blank ↦
            ap fst (answers_blank query one d index pages s user blank)
            ∙ sym (ap fst (answers_blank query two d index pages s user blank))
        | inr words ↦
            let first = answers_fresh query one d index pages s user words miss in
            let second = answers_fresh query two d index pages s user words miss' in
            elim (List-cases (tokenize texts.findall query)) [
              | inl none_ ↦
                  ap fst (first ∙ fresh-no_words query one d index pages s user none_)
                  ∙ sym (ap fst (second ∙ fresh-no_words query two d index pages s user none_))
              | inr (t, ts, some_) ↦ elim (List-cases (F.sinter (index_keys (t ∷ ts)) index)) [
                | inl empty ↦
                    ap fst (first ∙ fresh-no_ids query one d index pages s user some_ empty)
                    ∙ sym
                        (ap fst (second ∙ fresh-no_ids query two d index pages s user some_ empty))
                | inr (id, ids, found) ↦
                    let rows = collect V B d user (picked (id ∷ ids) (F.ranked d query)) s in
                    ap fst (first ∙ fresh-found query one d index pages s user some_ found)
                    ∙ items-store_page V I B P F texts (key_of query one) one pages rows
                    ∙ sym (items-store_page V I B P F texts (key_of query two) two pages rows)
                    ∙ sym (ap fst (second ∙ fresh-found query two d index pages s user some_ found))
              ]
            ]
      ]
