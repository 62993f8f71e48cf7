-- ===== src/Search/Pages.antt =====
-- What a search answers, and to whom.
use swiftpaste.Prelude.{
  ◌⊎◌, String, ◌≡◌, refl, ◌∙◌, sym, ap, Bool, true, not, ◌&&◌, Option, none, List, [], ◌∷◌, arith,
  Bool-cases, inl, inr,
}
use swiftpaste.Core.Errors.{Result, ok, err}
use swiftpaste.Models.{Snippet, SnippetVersion, User, UserMeta, SnippetResponse}
use swiftpaste.Snippets.Backend.{Backend}
use swiftpaste.Snippets.Common.{response}
use swiftpaste.Snippets.View.{is_private, is_none}
use swiftpaste.Snippets.Retries.{Result-cases}
use swiftpaste.Search.{IndexStore, has, index_key, tokenize}
use swiftpaste.Search.Results.{
  Params, Page, PageStore, Finder, Texts, all, result_key, index_keys, picked, onto, collect,
  store_page, fresh_page, search_snippets,
}
use swiftpaste.Views.{ViewStore, increment_snippet_views}

-- What holds of the items, where there is an answer.
abbrev pub AllItems : (SnippetResponse → Bool) → Result (List SnippetResponse) → Type 0
AllItems p (ok items) = all p items ≡ true
AllItems p (err e) = Unit

-- A private version wants some user.
abbrev pub may_see : Option User → SnippetResponse → Bool
may_see user r = not (is_private r.current_version.visibility && is_none user)

pub List-cases : {A : Type 0} (l : List A) → (l ≡ []) ⊎ ((a : A) × (r : List A) × (l ≡ a ∷ r))
List-cases [] = inl refl
List-cases (a ∷ l) = inr (a, l, refl)

pub response-Keys :
    (x : Snippet) (v : SnippetVersion) (author : UserMeta) {r : SnippetResponse}
    → response x v author ≡ ok r
    → (r.short_id ≡ x.short_id) × (r.current_version.visibility ≡ v.visibility)
response-Keys x v author e = ground arith

module _ (V : ViewStore) (B : Backend) where
  AllItems-onto :
      (p : SnippetResponse → Bool) (r : SnippetResponse)
      (rest : Result (List SnippetResponse) × V.Store)
      → p r ≡ true
      → AllItems p rest.0
      → AllItems p (onto V B r rest).0
  AllItems-onto p r (err e, s) holds all_ = tt
  AllItems-onto p r (ok rs, s) holds all_ = rw holds all_

  collect_shows :
      (d : B.Db) (user : Option User) (ids : List String) (rows : List (Snippet × SnippetVersion))
      (s : V.Store)
      → AllItems
          (λ r. may_see user r && has r.short_id ids)
          (collect V B d user (picked ids rows) s).0
  unfolding collect picked
  collect_shows d user ids [] s = refl
  collect_shows d user ids ((x, v) ∷ rows) s = elim (Bool-cases (has x.short_id ids)) [
    | inr out ↦ rw (out, picked) (collect_shows d user ids rows s)
    | inl in_ ↦ elim (Bool-cases (is_private v.visibility && is_none user)) [
      | inl hidden ↦ rw (in_, picked, hidden, collect) (collect_shows d user ids rows s)
      | inr seen ↦ elim (Result-cases (response x v (B.author d x.author_id))) [
        | inl (e, failed) ↦ rw (in_, picked, seen, failed, collect) tt
        | inr (r, made) ↦
            let keys = response-Keys x v (B.author d x.author_id) made in
            rw (in_, picked, seen, made, collect)
              (AllItems-onto (λ r. may_see user r && has r.short_id ids) r _
                (rw (keys.0, keys.1, in_, seen) refl)
                (collect_shows d user ids rows (increment_snippet_views V x.short_id s)))
      ]
    ]
  ]

abbrev pub items_of : Result Page → Result (List SnippetResponse)
items_of (ok page) = ok page.items
items_of (err e) = err e

all-ext :
    (p q : SnippetResponse → Bool) (l : List SnippetResponse)
    → ((r : SnippetResponse) → p r ≡ q r)
    → all p l ≡ all q l
all-ext p q [] same = refl
all-ext p q (r ∷ rs) same = rw (same r, all-ext p q rs same) refl

AllItems-ext :
    (p q : SnippetResponse → Bool) (o : Result (List SnippetResponse))
    → ((r : SnippetResponse) → p r ≡ q r)
    → AllItems p o
    → AllItems q o
AllItems-ext p q (ok l) same h = sym (all-ext p q l same) ∙ h
AllItems-ext p q (err e) same h = tt

module _ (V : ViewStore) (I : IndexStore) (B : Backend) (P : PageStore) (F : Finder I B)
    (texts : Texts) where
  abbrev key_of : String → Params → String
  key_of query params = result_key (texts.lower query) params

  -- Not private, or there is a user, and the item's snippet is in the set of each word.
  abbrev pub is_found : String → Option User → I.Store → SnippetResponse → Bool
  is_found query user index r =
      may_see user r
      && all (λ k. I.is_member index k r.short_id) (index_keys (tokenize texts.findall query))

  pub items-store_page :
      (key : String) (params : Params) (pages : P.Store)
      (o : Result (List SnippetResponse) × V.Store)
      → items_of (store_page V I B P F texts key params pages o).0 ≡ o.0
  items-store_page key params pages (ok rs, s) = refl
  items-store_page key params pages (err e, s) = refl

  pub views-store_page :
      (key : String) (params : Params) (pages : P.Store)
      (o : Result (List SnippetResponse) × V.Store)
      → (store_page V I B P F texts key params pages o).1.1 ≡ o.1
  views-store_page key params pages (ok rs, s) = refl
  views-store_page key params pages (err e, s) = refl

  fresh_page_shows :
      (query : String) (user : Option User) (params : Params) (d : B.Db) (index : I.Store)
      (pages : P.Store) (s : V.Store)
      → AllItems
          (is_found query user index)
          (items_of (fresh_page V I B P F texts query user params d index (pages, s)).0)
  unfolding fresh_page
  fresh_page_shows query user params d index pages s =
      elim (List-cases (tokenize texts.findall query)) [
        | inl none_ ↦ rw (none_, fresh_page) refl
        | inr (t, ts, some_) ↦ elim (List-cases (F.sinter (index_keys (t ∷ ts)) index)) [
          | inl empty ↦ rw (some_, empty, fresh_page) refl
          | inr (id, ids, found) ↦
              let member : (m : String)
                  → has m (id ∷ ids)
                    ≡ all (λ k. I.is_member index k m) (index_keys (tokenize texts.findall query)) =
                λ m.
                  ap (has m) (sym found)
                  ∙ F.has-sinter (index_key t) (index_keys ts) index m
                  ∙ ap (λ l. all (λ k. I.is_member index k m) (index_keys l)) (sym some_) in
              let rows = collect V B d user (picked (id ∷ ids) (F.ranked d query)) s in
              rw (some_, found, fresh_page)
                (rw (items-store_page (key_of query params) params pages rows) (
                  AllItems-ext (λ r. may_see user r && has r.short_id (id ∷ ids)) _ rows.0
                    (λ r. ap (λ b. may_see user r && b) (member r.short_id))
                    (collect_shows V B d user (id ∷ ids) (F.ranked d query) s)))
        ]
      ]

  -- Where Redis keeps no page for it, a search with no user answers with no private version, and every
  -- search only with snippets that are in the set of the index of every word of the query. It does not
  -- look at the expiry of a version.
  pub search_shows :
      (query : String) (user : Option User) (params : Params) (d : B.Db) (index : I.Store)
      (pages : P.Store) (s : V.Store)
      → P.get (result_key (texts.lower query) params) pages ≡ none
      → AllItems
          (is_found query user index)
          (items_of (search_snippets V I B P F texts query user params d index (pages, s)).0)
  unfolding search_snippets
  search_shows query user params d index pages s miss = elim (Bool-cases (texts.is_blank query)) [
    | inl blank ↦ rw (blank, search_snippets) refl
    | inr words ↦
        rw (words, miss, search_snippets) (fresh_page_shows query user params d index pages s)
  ]
