-- ===== src/Snippets/Access.antt =====
-- Who sees what through `snippet_out_view`: an independent description, and that the code meets it.
use swiftpaste.Prelude.{
  ℕ, ◌≤◌, String, ◌≡◌, refl, ◌↔◌, ◌⊎◌, false, ◌&&◌, Option, none, some, arith, eq_iff, Bool-cases,
  Option-cases, inl, inr, sym,
}
use swiftpaste.Core.Errors.{ok}
use swiftpaste.Models.{
  VisibilityType, private, public, Snippet, SnippetVersion, User, SnippetResponse,
}
use swiftpaste.Snippets.Backend.{Backend}
use swiftpaste.Snippets.Common.{select_by_short_id, with_content, response}
use swiftpaste.Snippets.View.{
  is_private, is_none, is_expired, is_stranger, wanted, show_version, snippet_out_view,
}

abbrev pub IsSignedIn : Option User → Type 0
IsSignedIn user = (u : User) × (user ≡ some u)

abbrev pub IsAuthor : Option User → Snippet → Type 0
IsAuthor user x = (u : User) × (user ≡ some u) × (x.author_id ≡ u.id)

abbrev pub IsCurrent : SnippetVersion → ℕ → Type 0
IsCurrent v now = (t : ℕ) → v.expires_at ≡ some t → now ≤ t

-- A private version wants some user, an expired one wants the author.
abbrev pub MayView : Snippet → SnippetVersion → Option User → ℕ → Type 0
MayView x v user now =
    ((v.visibility ≡ public) ⊎ IsSignedIn user) × (IsCurrent v now ⊎ IsAuthor user x)

ok_injective : {a b : SnippetResponse} → ok a ≡ ok b → a ≡ b
ok_injective e = cc

signed_in :
    (c : VisibilityType) (user : Option User)
    → (is_private c && is_none user) ≡ false
    → (c ≡ public) ⊎ IsSignedIn user
signed_in private none e = cc
signed_in private (some u) e = inr (u, refl)
signed_in public user e = inl refl

not_restricted :
    (c : VisibilityType) (user : Option User)
    → (c ≡ public) ⊎ IsSignedIn user
    → (is_private c && is_none user) ≡ false
not_restricted c user (inl e) = rw e
not_restricted private user (inr (u, e)) = rw e
not_restricted public user (inr (u, e)) = refl

current : (o : Option ℕ) (now : ℕ) → is_expired o now ≡ false → (t : ℕ) → o ≡ some t → now ≤ t
current none now e t p = cc
current (some s) now e t p = ground arith

IsAuthor-of : (user : Option User) (x : Snippet) → is_stranger user x ≡ false → IsAuthor user x
IsAuthor-of none x e = cc
IsAuthor-of (some u) x e = (u, refl, ground (arith, eq_iff x.author_id u.id))

current_or_IsAuthor :
    (x : Snippet) (o : Option ℕ) (user : Option User) (now : ℕ)
    → (is_expired o now && is_stranger user x) ≡ false
    → ((t : ℕ) → o ≡ some t → now ≤ t) ⊎ IsAuthor user x
current_or_IsAuthor x o user now e = elim (Bool-cases (is_expired o now)) [
  | inl late ↦ inr (IsAuthor-of user x (ground arith))
  | inr in_time ↦ inl (current o now in_time)
]

not_locked :
    (x : Snippet) (o : Option ℕ) (user : Option User) (now : ℕ)
    → ((t : ℕ) → o ≡ some t → now ≤ t) ⊎ IsAuthor user x
    → (is_expired o now && is_stranger user x) ≡ false
not_locked x none user now h = refl
not_locked x (some t) user now (inl h) = ground (arith, h t refl)
not_locked x (some t) user now (inr (u, e, own)) = ground (arith, eq_iff x.author_id u.id)

module _ (B : Backend) where
  open B use {Db, version_row, author}

  -- The rows that a view with this response has read.
  pub record Shows (short_id : String) (version : Option ℕ) (user : Option User) (now : ℕ) (d : Db)
      (r : SnippetResponse) : Type 0 where
    pub x : Snippet
    pub v : SnippetVersion
    pub content : String
    pub found : select_by_short_id B d short_id ≡ some x
    pub version_found : version_row d x.id (wanted version x) ≡ some v
    pub has_content : v.content ≡ some content
    pub allowed : MayView x v user now
    pub is_response : r ≡ with_content x v (author d x.author_id) content

  response_ok :
      (x : Snippet) (v : SnippetVersion) (d : Db) {r : SnippetResponse}
      → response x v (author d x.author_id) ≡ ok r
      → (content : String) × (v.content ≡ some content)
        × (r ≡ with_content x v (author d x.author_id) content)
  response_ok x v d {r} e = elim (Option-cases v.content) [
    | inl null ↦ cc (rw null at e)
    | inr (content, has) ↦ (content, has, ok_injective (sym (rw has at e)))
  ]

  show_version_ok :
      (x : Snippet) (v : SnippetVersion) (user : Option User) (now : ℕ) (d : Db)
      {r : SnippetResponse}
      → show_version B x v user now d ≡ ok r
      → ((is_private v.visibility && is_none user) ≡ false)
        × ((is_expired v.expires_at now && is_stranger user x) ≡ false)
        × (response x v (author d x.author_id) ≡ ok r)
  unfolding show_version
  show_version_ok x v user now d e = elim (Bool-cases (is_private v.visibility && is_none user)) [
    | inl shut ↦ cc (rw (shut, show_version) at e)
    | inr open_ ↦ elim (Bool-cases (is_expired v.expires_at now && is_stranger user x)) [
      | inl late ↦ cc (rw (open_, late, show_version) at e)
      | inr in_time ↦ (open_, in_time, rw (open_, in_time, show_version) at e)
    ]
  ]

  Shows-of :
      (short_id : String) (version : Option ℕ) (user : Option User) (now : ℕ) (d : Db)
      (r : SnippetResponse)
      → snippet_out_view B short_id version user now d ≡ ok r
      → Shows short_id version user now d r
  unfolding snippet_out_view
  Shows-of short_id version user now d r e = elim (Option-cases (select_by_short_id B d short_id)) [
    | inl missing ↦ cc (rw (missing, snippet_out_view) at e)
    | inr (x, found) ↦ elim (Option-cases (version_row d x.id (wanted version x))) [
      | inl missing ↦ cc (rw (found, missing, snippet_out_view) at e)
      | inr (v, version_found) ↦
          let (open_, in_time, answered) =
            show_version_ok x v user now d (rw (found, version_found, snippet_out_view) at e) in
          let (content, has, is) = response_ok x v d answered in
          record {
            x = x;
            v = v;
            content = content;
            found = found;
            version_found = version_found;
            has_content = has;
            allowed = (
              signed_in v.visibility user open_,
              current_or_IsAuthor x v.expires_at user now in_time,
            );
            is_response = is;
          }
    ]
  ]

  view_of :
      (short_id : String) (version : Option ℕ) (user : Option User) (now : ℕ) (d : Db)
      (r : SnippetResponse)
      → Shows short_id version user now d r
      → snippet_out_view B short_id version user now d ≡ ok r
  unfolding snippet_out_view
  view_of short_id version user now d r h =
      rw (h.found, h.version_found, snippet_out_view)
        (unfold show_version in
          rw (
            not_restricted h.v.visibility user h.allowed.0,
            not_locked h.x h.v.expires_at user now h.allowed.1,
            h.has_content,
            sym h.is_response,
          ))

  -- The view answers with a response exactly where there is a live snippet with the short id, a version of
  -- it as asked for with a content, and the caller may view it: a private version wants some user, an
  -- expired one wants the author. The response is made of those rows.
  pub view-Shows :
      (short_id : String) (version : Option ℕ) (user : Option User) (now : ℕ) (d : Db)
      (r : SnippetResponse)
      → (snippet_out_view B short_id version user now d ≡ ok r)
        ↔ Shows short_id version user now d r
  view-Shows short_id version user now d r =
      (Shows-of short_id version user now d r, view_of short_id version user now d r)
