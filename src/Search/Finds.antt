-- ===== src/Search/Finds.antt =====
-- That a search shows what it should.
use swiftpaste.Prelude.{
  ℕ, ◌⊎◌, ◌≢◌, String, ◌≡◌, refl, ◌∙◌, sym, ap, Bool, true, false, ◌&&◌, ◌||◌, Option, none, some,
  List, [], ◌∷◌, arith, str_eq, ◌==◌, Bool-cases, inl, inr,
}
use text.Mathlib.TextPositions.{eq_refl}
use swiftpaste.Core.Errors.{Result, ok, err}
use swiftpaste.Models.{Snippet, SnippetVersion, User, SnippetResponse}
use swiftpaste.Snippets.Backend.{Backend}
use swiftpaste.Snippets.Common.{with_content}
use swiftpaste.Snippets.View.{is_private, is_none}
use swiftpaste.Search.{IndexStore, has, index_key, tokenize}
use swiftpaste.Search.Results.{
  Params, Page, PageStore, Finder, Texts, all, result_key, index_keys, picked, onto, collect,
  store_page, fresh_page, search_snippets,
}
use swiftpaste.Search.Pages.{List-cases}
use swiftpaste.Views.{ViewStore, increment_snippet_views}

abbrev pub IsAmong : Snippet → SnippetVersion → List (Snippet × SnippetVersion) → Type 0
IsAmong x v [] = ⊥
IsAmong x v ((y, w) ∷ rows) = ((x ≡ y) × (v ≡ w)) ⊎ IsAmong x v rows

-- No version has a null content.
abbrev pub HaveContents : List (Snippet × SnippetVersion) → Type 0
HaveContents [] = Unit
HaveContents ((x, v) ∷ rows) = ((content : String) × (v.content ≡ some content)) × HaveContents rows

-- Some item shows the version of the snippet.
abbrev pub shows : Snippet → SnippetVersion → List SnippetResponse → Bool
shows x v [] = false
shows x v (r ∷ rs) =
    (str_eq r.short_id x.short_id && r.current_version.version == v.version) || shows x v rs

==-refl : (n : ℕ) → (n == n) ≡ true
==-refl n = ground arith

module _ (V : ViewStore) (B : Backend) where
  abbrev Collected : Result (List SnippetResponse) → (List SnippetResponse → Bool) → Type 0
  Collected o p = (rs : List SnippetResponse) × (o ≡ ok rs) × (p rs ≡ true)

  onto-ok :
      (r : SnippetResponse) (o : Result (List SnippetResponse) × V.Store)
      {rs : List SnippetResponse}
      → o.0 ≡ ok rs
      → (onto V B r o).0 ≡ ok (r ∷ rs)
  onto-ok r (ok rs, s) e = ap (λ o. elim o [ err f ↦ err f | ok l ↦ ok (r ∷ l) ]) e
  onto-ok r (err f, s) e = cc

  collects :
      (d : B.Db) (user : Option User) (ids : List String) (rows : List (Snippet × SnippetVersion))
      (s : V.Store)
      → HaveContents rows
      → Collected (collect V B d user (picked ids rows) s).0 (λ rs. true)
  unfolding collect picked
  collects d user ids [] s has_ = ([], refl, refl)
  collects d user ids ((y, w) ∷ rows) s ((content, there), more) =
      elim (Bool-cases (has y.short_id ids)) [
        | inr out ↦ rw (out, picked) (collects d user ids rows s more)
        | inl in_ ↦ elim (Bool-cases (is_private w.visibility && is_none user)) [
          | inl hidden ↦ rw (in_, picked, hidden, collect) (collects d user ids rows s more)
          | inr seen ↦
              let r = with_content y w (B.author d y.author_id) content in
              let (rs, done, _) =
                collects d user ids rows (increment_snippet_views V y.short_id s) more in
              rw (in_, picked, seen, there, collect) (r ∷ rs, onto-ok r _ done, refl)
        ]
      ]

  collect_finds :
      (d : B.Db) (user : Option User) (ids : List String) (rows : List (Snippet × SnippetVersion))
      (s : V.Store) (x : Snippet) (v : SnippetVersion)
      → HaveContents rows
      → IsAmong x v rows
      → has x.short_id ids ≡ true
      → (is_private v.visibility && is_none user) ≡ false
      → Collected (collect V B d user (picked ids rows) s).0 (shows x v)
  unfolding collect picked
  collect_finds d user ids [] s x v contents among in_ seen = elim among [ ]
  collect_finds d user ids ((y, w) ∷ rows) s x v ((content, there), more) (inl (e, f)) in_ seen =
      let r = with_content y w (B.author d y.author_id) content in
      let in_y : has y.short_id ids ≡ true = rw (← ap (λ (z : Snippet). z.short_id) e) in_ in
      let seen_w : (is_private w.visibility && is_none user) ≡ false =
        rw (← ap (λ (z : SnippetVersion). z.visibility) f) seen in
      let (rs, done, _) = collects d user ids rows (increment_snippet_views V y.short_id s) more in
      rw (in_y, picked, seen_w, there, collect)
        (r ∷ rs, onto-ok r _ done, rw (e, f, eq_refl y.short_id, ==-refl w.version) refl)
  collect_finds d user ids ((y, w) ∷ rows) s x v ((content, there), more) (inr later) in_ seen =
      elim (Bool-cases (has y.short_id ids)) [
        | inr out ↦ rw (out, picked) (collect_finds d user ids rows s x v more later in_ seen)
        | inl in_y ↦ elim (Bool-cases (is_private w.visibility && is_none user)) [
          | inl hidden ↦
              rw (in_y, picked, hidden, collect)
                (collect_finds d user ids rows s x v more later in_ seen)
          | inr seen_w ↦
              let r = with_content y w (B.author d y.author_id) content in
              let (rs, done, found) =
                collect_finds d user ids rows (increment_snippet_views V y.short_id s) x v more
                  later in_ seen in
              rw (in_y, picked, seen_w, there, collect)
                (r ∷ rs, onto-ok r _ done, ground (arith, found))
        ]
      ]

module _ (V : ViewStore) (I : IndexStore) (B : Backend) (P : PageStore) (F : Finder I B)
    (texts : Texts) where
  -- A search answers with a page that shows the version.
  abbrev pub Finds : Snippet → SnippetVersion → Result Page → Type 0
  Finds x v o = (page : Page) × (o ≡ ok page) × (shows x v page.items ≡ true)

  Finds-store_page :
      (key : String) (params : Params) (pages : P.Store) (x : Snippet) (v : SnippetVersion)
      (o : Result (List SnippetResponse) × V.Store)
      → Collected V B o.0 (shows x v)
      → Finds x v (store_page V I B P F texts key params pages o).0
  Finds-store_page key params pages x v (ok rs, s) (rs', e, found) =
      (_, refl, rw (ok_injective e) found)
    where
      ok_injective : {a b : List SnippetResponse} → ok a ≡ ok b → a ≡ b
      ok_injective e = cc
  Finds-store_page key params pages x v (err f, s) (rs, e, found) = cc

  -- A search for words that are no blank, for which Redis keeps no page: if the snippet is in the set of
  -- the index of every word, PostgreSQL has the version among its rows for the query, none of which has a
  -- null content, and the caller may see the version, then the search answers, and shows the version.
  pub search-Finds :
      (query : String) (user : Option User) (params : Params) (d : B.Db) (index : I.Store)
      (pages : P.Store) (s : V.Store) (x : Snippet) (v : SnippetVersion)
      → texts.is_blank query ≡ false
      → tokenize texts.findall query ≢ []
      → P.get (result_key (texts.lower query) params) pages ≡ none
      → all (λ k. I.is_member index k x.short_id) (index_keys (tokenize texts.findall query)) ≡ true
      → HaveContents (F.ranked d query)
      → IsAmong x v (F.ranked d query)
      → (is_private v.visibility && is_none user) ≡ false
      → Finds x v (search_snippets V I B P F texts query user params d index (pages, s)).0
  unfolding search_snippets fresh_page
  search-Finds query user params d index pages s x v words said miss member contents among seen =
      elim (List-cases (tokenize texts.findall query)) [
        | inl none_ ↦ absurd (said none_)
        | inr (t, ts, some_) ↦
            let there : has x.short_id (F.sinter (index_keys (t ∷ ts)) index) ≡ true =
              F.has-sinter (index_key t) (index_keys ts) index x.short_id
              ∙ ap (λ l. all (λ k. I.is_member index k x.short_id) (index_keys l)) (sym some_)
              ∙ member in
            elim (List-cases (F.sinter (index_keys (t ∷ ts)) index)) [
              | inl empty ↦ cc (rw empty at there)
              | inr (id, ids, found) ↦
                  rw (words, miss, some_, found, search_snippets, fresh_page)
                    (Finds-store_page (result_key (texts.lower query) params) params pages x v _ (
                      collect_finds V B d user (id ∷ ids) (F.ranked d query) s x v contents among
                        (rw found at there) seen))
            ]
      ]
