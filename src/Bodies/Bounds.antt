-- ===== src/Bodies/Bounds.antt =====
-- What the bounds of the bodies come to in the rows.
use mathlib.Core.Option
use Prim.Native.String
use swiftpaste.Prelude.{
  ℕ, String, ◌≡◌, refl, ◌∙◌, sym, ap, true, Option, none, some, arith, leb, str_eq, if◌then◌else◌,
  Bool-cases, Option-cases, inl, inr,
}
use swiftpaste.Core.Errors.{ok}
use swiftpaste.Models.{
  Snippet, SnippetVersion, VisibilityType, SnippetChange, SnippetCreate, SnippetUpdate, change,
  set_title, count_version,
}
use swiftpaste.Snippets.Backend.{Backend, inserted}
use swiftpaste.Snippets.Create.{insert_rows, committed}
use swiftpaste.Snippets.Creates.{insert_rows-IsNew, Inserted-cases}
use swiftpaste.Snippets.Update.{create_new_version, new_version}
use swiftpaste.Bodies.{
  CreateBody, UpdateBody, has_length_in, required, nullable, or_public, parse_create, parse_update,
}

-- The CHECK constraints of `snippets`: `length(short_id) = 8` and `length(title) <= 1000`.
abbrev pub FitsChecks : Snippet → Type 0
FitsChecks x = (String.count x.short_id ≡ 8) × (leb (String.count x.title) 1000 ≡ true)

pub ok_injective : {A : Type 0} {a b : A} → ok a ≡ ok b → a ≡ b
ok_injective e = cc

pub some_injective : {A : Type 0} {a b : A} → some a ≡ some b → a ≡ b
some_injective e = cc

required_fits :
    (low high : ℕ) (given : Option (Option String)) {t : String}
    → required low high given ≡ some t
    → has_length_in low high t ≡ true
required_fits low high none e = cc
required_fits low high (some none) e = cc
required_fits low high (some (some u)) e = elim (Bool-cases (has_length_in low high u)) [
  | inl fits ↦ rw (← some_injective (rw fits at e)) fits
  | inr odd ↦ cc (rw odd at e)
]

nullable_fits :
    (low high : ℕ) (given : Option (Option String)) {t : String}
    → nullable low high given ≡ some (some t)
    → has_length_in low high t ≡ true
nullable_fits low high none e = cc
nullable_fits low high (some none) e = cc
nullable_fits low high (some (some u)) e = elim (Bool-cases (has_length_in low high u)) [
  | inl fits ↦ rw (← some_injective (some_injective (rw fits at e))) fits
  | inr odd ↦ cc (rw odd at e)
]

at_most :
    (low high : ℕ) (t : String) → has_length_in low high t ≡ true → leb (String.count t) high ≡ true
at_most low high t e = ground (arith, e)

pub created_title :
    (body : CreateBody) {payload : SnippetCreate}
    → parse_create body ≡ some payload
    → leb (String.count payload.title) 1000 ≡ true
unfolding parse_create
created_title body e = elim (Option-cases (required 1 1000 body.title)) [
  | inl no_title ↦ cc (rw no_title at e)
  | inr (title, titled) ↦ elim (Option-cases (required 1 50000 body.content)) [
    | inl no_content ↦ cc (rw (titled, no_content) at e)
    | inr (content, given) ↦ elim (Option-cases (or_public body.visibility)) [
      | inl null ↦ cc (rw (titled, given, null) at e)
      | inr (v, seen) ↦
          rw
            (← ap (λ (p : SnippetCreate). p.title) (some_injective (rw (titled, given, seen) at e)))
            (at_most 1 1000 title (required_fits 1 1000 body.title titled))
    ]
  ]
]

pub updated_title :
    (body : UpdateBody) {payload : SnippetUpdate} {title : String}
    → parse_update body ≡ some payload
    → payload.title ≡ some title
    → leb (String.count title) 1000 ≡ true
unfolding parse_update
updated_title body {payload} {title} e given = elim (Option-cases (nullable 1 1000 body.title)) [
  | inl no_title ↦ cc (rw no_title at e)
  | inr (t, titled) ↦ elim (Option-cases (nullable 1 50000 body.content)) [
    | inl no_content ↦ cc (rw (titled, no_content) at e)
    | inr (content, here) ↦
        let same : t ≡ payload.title =
          ap (λ (p : SnippetUpdate). p.title) (some_injective (rw (titled, here) at e)) in
        at_most 1 1000 title
          (nullable_fits 1 1000 body.title (titled ∙ ap (λ o. some o) (same ∙ given)))
  ]
]

module _ (B : Backend) where
  open B use {Db, by_short_id, update_snippet_row}

  -- Every row that a short id finds satisfies the constraints.
  abbrev pub AllFit : Db → Type 0
  AllFit d = (k : String) (x : Snippet) → by_short_id d k ≡ some x → FitsChecks x

  mapped :
      (f : Snippet → Snippet) (o : Option Snippet) {y : Snippet}
      → Option.map f o ≡ some y
      → (x : Snippet) × (o ≡ some x) × (y ≡ f x)
  mapped f none e = cc
  mapped f (some x) e = (x, refl, ground (arith, e))

  pub AllFit-change :
      (i : String) (c : SnippetChange) (d : Db)
      → ((x : Snippet) → FitsChecks x → FitsChecks (change c x))
      → AllFit d
      → AllFit (update_snippet_row i c d)
  AllFit-change i c d keeps fit k y found =
      let (x, there, is) =
        mapped (λ x. if str_eq i x.id then change c x else x) (by_short_id d k)
          (sym (B.by_short_id-update_snippet_row i c d k) ∙ found) in
      elim (Bool-cases (str_eq i x.id)) [
        | inl same ↦ rw (is, same) (keeps x (fit k x there))
        | inr other ↦ rw (is, other) (fit k x there)
      ]

  pub AllFit-title :
      (i title : String) (d : Db)
      → leb (String.count title) 1000 ≡ true
      → AllFit d
      → AllFit (update_snippet_row i (set_title title) d)
  AllFit-title i title d short fit =
      AllFit-change i (set_title title) d (λ x (e, _). (e, short)) fit

  pub AllFit-inserted :
      (payload : SnippetCreate) (x : Snippet) (d d' : Db)
      → FitsChecks x
      → insert_rows B payload x d ≡ committed d'
      → AllFit d
      → AllFit d'
  AllFit-inserted payload x d d' fits done fit k y found =
      let new = insert_rows-IsNew B payload x d done in
      elim (Bool-cases (str_eq x.short_id k)) [
        | inl same ↦ rw (← some_injective (rw same at (sym (new.short_rows k) ∙ found))) fits
        | inr other ↦ fit k y (rw other at (sym (new.short_rows k) ∙ found))
      ]

  pub AllFit-version :
      (i : String) (content : Option String) (visibility : Option VisibilityType)
      (v : SnippetVersion) (d d' : Db)
      → create_new_version B i content visibility d ≡ ok (v, d')
      → AllFit d
      → AllFit d'
  unfolding create_new_version
  AllFit-version i content visibility v d d' e fit =
      let d₁ = update_snippet_row i count_version d in
      elim (Option-cases (B.by_id d₁ i)) [
        | inl missing ↦ cc (rw (missing, create_new_version) at e)
        | inr (row, found) ↦
            let made = new_version B i row.version_counter content visibility in
            elim (Inserted-cases (B.insert_version made d₁)) [
              | inl (t, failed) ↦ cc (rw (found, failed, create_new_version) at e)
              | inr (d₂, done) ↦
                  let same : d₂ ≡ d' =
                    ap (λ (p : SnippetVersion × Db). p.1)
                      (ok_injective (rw (found, done, create_new_version) at e)) in
                  λ k y there.
                    AllFit-change i count_version d (λ x f. f) fit k y
                      (sym (B.by_short_id-insert_version made d₁ k (done ∙ ap inserted same))
                        ∙ there)
            ]
      ]
