-- ===== src/Snippets/Refines.antt =====
-- What documents are under a change of the rows that they are made of.
use mathlib.Core.Option
use mathlib.Core.Path.{fun_ext}
use swiftpaste.Prelude.{
  ℕ, zero, suc, ◌≤◌, ◌<◌, String, ◌≡◌, refl, ◌∙◌, sym, ap, true, false, ◌&&◌, Option, none, some,
  List, [], ◌∷◌, arith, str_eq, ◌==◌, if◌then◌else◌, Bool-cases, Option-cases, inl, inr, eq_iff,
}
use swiftpaste.Models.{public, Snippet, SnippetVersion, User}
use swiftpaste.Snippets.Backend.{Backend, set_expiry}
use swiftpaste.Snippets.Common.{is_live, select_owned}
use swiftpaste.Snippets.Update.{content_changed}
use swiftpaste.Snippets.Versions.{owned_row}
use swiftpaste.Snippets.Consistent.{IsConsistent, HasKey, is_there}
use swiftpaste.Prelude.Lists.{length}
use swiftpaste.Snippets.Documents.{
  Document, numbered, document, document_of, owns, extend, amend, expire, alter,
}

-- A version above the numbers that are read makes no difference.
numbered_above :
    (row : ℕ → Option SnippetVersion) (v : SnippetVersion) (m n : ℕ)
    → n < m
    → numbered (λ k. if m == k then some v else row k) n ≡ numbered row n
numbered_above row v m zero h = refl
numbered_above row v m (suc n) h = ground (arith, numbered_above row v m n)

pub numbered_next :
    (row : ℕ → Option SnippetVersion) (v : SnippetVersion) (n : ℕ)
    → numbered (λ k. if suc n == k then some v else row k) (suc n) ≡ v ∷ numbered row n
numbered_next row v n = ground (arith, numbered_above row v (suc n) n)

pub expire-numbered :
    (row : ℕ → Option SnippetVersion) (i : String) (m t n : ℕ)
    → ((k : ℕ) → HasKey i k (row k))
    → numbered (λ k. if m == k then Option.map (set_expiry t) (row k) else row k) n
      ≡ expire m t (numbered row n)
expire-numbered row i m t zero h = refl
expire-numbered row i m t (suc n) h = elim (Option-cases (row (suc n))) [
  | inl missing ↦ ground (arith, missing, expire-numbered row i m t n h)
  | inr (v, there) ↦
      let (_, number) = rw there at (h (suc n)) in
      ground (arith, there, number, expire-numbered row i m t n h)
]

-- With all of them there, there are as many as the highest number.
pub length-numbered :
    (row : ℕ → Option SnippetVersion) (n : ℕ)
    → ((k : ℕ) → k < n → is_there (row (suc k)) ≡ true)
    → length (numbered row n) ≡ n
length-numbered row zero h = refl
length-numbered row (suc n) h = elim (Option-cases (row (suc n))) [
  | inl missing ↦ cc (missing, h n (omega arith))
  | inr (v, there) ↦ ground (arith, there, length-numbered row n (λ k lt. h k (omega arith)))
]

module _ (B : Backend) where
  open B use {Db, by_id, version_row, update_snippet_row}

  pub document-congr :
      (d d' : Db) (j : String)
      → by_id d' j ≡ by_id d j
      → ((n : ℕ) → version_row d' j n ≡ version_row d j n)
      → document_of B d' j ≡ document_of B d j
  document-congr d d' j row versions = rw (row, fun_ext versions)

  -- The document of a snippet that is there.
  pub document-some :
      (d : Db) (j : String) {x : Snippet}
      → by_id d j ≡ some x
      → document_of B d j ≡ document (version_row d j) (some x)
  document-some d j row = rw row

  pub length-history :
      {d : Db} (h : IsConsistent B d) (i : String) {x : Snippet}
      → by_id d i ≡ some x
      → length (numbered (version_row d i) x.version_counter) ≡ x.version_counter
  length-history {d} h i {x} row =
      length-numbered (version_row d i) x.version_counter
        (λ k lt. h.numbers i (suc k) ∙ rw row (ground arith))

  module _ (d : Db) (i : String) (user : User) (f : Document → Document) where
    -- Where the user's select finds nothing, nothing is altered.
    pub unowned :
        select_owned B d i user ≡ none
        → (j : String) → alter i user f (document_of B d) j ≡ document_of B d j
    unowned missing j = elim (Option-cases (by_id d j)) [
      | inl none_ ↦ rw none_ (ground arith)
      | inr (x, row) ↦ elim (Bool-cases (str_eq i j)) [
        | inr other ↦ rw other
        | inl hit ↦
            let here_ : by_id d i ≡ some x = ap (by_id d) ((eq_iff i j).0 hit) ∙ row in
            let shut : owns user (record {
              author_id = x.author_id;
              title = x.title;
              live = is_live x;
              history = [];
            })
                ≡ false =
              not_owned x (rw here_ at missing) in
            rw (hit, row) (rw shut refl)
      ]
    ]
      where
        not_owned :
            (x : Snippet)
            → (if is_live x && str_eq x.author_id user.id then some x else none) ≡ none
            → (is_live x && str_eq x.author_id user.id) ≡ false
        not_owned x e = elim (Bool-cases (is_live x && str_eq x.author_id user.id)) [
          | inl yes_ ↦ cc (rw yes_ at e)
          | inr no_ ↦ no_
        ]

  is_owner :
      (d : Db) (i : String) (user : User) {x : Snippet}
      → select_owned B d i user ≡ some x
      → by_id d i ≡ some x
      → (is_live x && str_eq x.author_id user.id) ≡ true
  is_owner d i user {x} owned row = elim (Bool-cases (is_live x && str_eq x.author_id user.id)) [
    | inl yes_ ↦ yes_
    | inr no_ ↦ cc (rw no_ at (rw row at owned))
  ]

  -- Where it finds a snippet, that document alone is altered.
  pub altered :
      (d d' : Db) (user : User) (f : Document → Document) (x : Snippet)
      → select_owned B d x.id user ≡ some x
      → document_of B d' x.id ≡ Option.map f (document_of B d x.id)
      → ((j : String) → str_eq x.id j ≡ false → document_of B d' j ≡ document_of B d j)
      → (j : String) → document_of B d' j ≡ alter x.id user f (document_of B d) j
  altered d d' user f x owned at_id others j = elim (Bool-cases (str_eq x.id j)) [
    | inr other ↦ rw other (others j other)
    | inl hit ↦
        let row = (owned_row B d x.id user owned).0 in
        let same = (eq_iff x.id j).0 hit in
        let mine = is_owner d x.id user owned row in
        let there : document_of B d j ≡ document (version_row d x.id) (some x) =
          ap (document_of B d) (sym same) ∙ document-some d x.id row in
        let after : document_of B d' j ≡ Option.map f (document (version_row d x.id) (some x)) =
          ap (document_of B d') (sym same) ∙ at_id ∙ ap (Option.map f) (document-some d x.id row) in
        after ∙ rw (hit, there) (rw mine refl)
  ]

-- The history at the highest number.
pub numbered_latest :
    (row : ℕ → Option SnippetVersion) (n : ℕ) {v : SnippetVersion}
    → 1 ≤ n
    → row n ≡ some v
    → (older : List SnippetVersion) × (numbered row n ≡ v ∷ older)
numbered_latest row zero h there = absurd (omega arith)
numbered_latest row (suc n) h there = (numbered row n, rw (there, numbered) refl)

pub extend_changed :
    (i : String) (content : Option String) (hs : List SnippetVersion) (v : SnippetVersion)
    (older : List SnippetVersion)
    → hs ≡ v ∷ older
    → content_changed (some content) v.content ≡ true
    → extend i content hs
      ≡ (record {
        snippet_id = i;
        version = suc (length hs);
        content = content;
        visibility = public;
        expires_at = none;
      })
        ∷ hs
extend_changed i content hs v older e changed = rw e (rw changed refl)

pub extend_same :
    (i : String) (content : Option String) (hs : List SnippetVersion) (v : SnippetVersion)
    (older : List SnippetVersion)
    → hs ≡ v ∷ older
    → content_changed (some content) v.content ≡ false
    → extend i content hs ≡ hs
extend_same i content hs v older e same = rw e (rw same refl)

-- An update of a document with a history.
pub amend-some :
    (i title : String) (content : Option String) (doc : Document) (v : SnippetVersion)
    (older : List SnippetVersion)
    → doc.history ≡ v ∷ older
    → amend i (some title) content doc
      ≡ record doc { title = title; history = extend i content doc.history }
amend-some i title content doc v older e =
    rw (e, amend)
      (ap
        (λ (hs : List SnippetVersion). record doc { title = title; history = extend i content hs })
        e)

pub amend-none :
    (i : String) (content : Option String) (doc : Document) → amend i none content doc ≡ doc
amend-none i content doc = ground arith

pub amend_nil :
    (i : String) (title content : Option String) (doc : Document)
    → doc.history ≡ []
    → amend i title content doc ≡ doc
amend_nil i title content doc e = ground arith
