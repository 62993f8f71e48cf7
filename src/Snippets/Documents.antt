-- ===== src/Snippets/Documents.antt =====
-- What the author of a snippet has to know of it: a document with its history of versions, newest first,
-- and what updating, deleting and sharing do to it.
use mathlib.Core.Option
use swiftpaste.Prelude.{
  ℕ, zero, suc, String, Bool, false, ◌&&◌, Option, none, some, List, [], ◌∷◌, str_eq, ◌==◌,
  if◌then◌else◌,
}
use swiftpaste.Prelude.Lists.{length}
use swiftpaste.Core.Config.{Settings}
use swiftpaste.Models.{public, Snippet, SnippetVersion, User, SnippetOut}
use swiftpaste.Snippets.Backend.{Backend, set_expiry}
use swiftpaste.Snippets.Common.{is_live}
use swiftpaste.Snippets.Update.{content_changed}
use swiftpaste.Snippets.Delete.{ttl_or_default, compute_expires_at}

pub record Document : Type 0 where
  pub author_id : String
  pub title : String
  pub live : Bool
  pub history : List SnippetVersion

-- The versions with the numbers from `n` down to 1.
abbrev pub numbered : (ℕ → Option SnippetVersion) → ℕ → List SnippetVersion
numbered row zero = []
numbered row (suc n) = elim (row (suc n)) [ none ↦ numbered row n | some v ↦ v ∷ numbered row n ]

abbrev pub document : (ℕ → Option SnippetVersion) → Option Snippet → Option Document
document row none = none
document row (some x) = some (record {
  author_id = x.author_id;
  title = x.title;
  live = is_live x;
  history = numbered row x.version_counter;
})

-- The documents that a database holds.
abbrev pub document_of : (B : Backend) → B.Db → String → Option Document
document_of B d i = document (B.version_row d i) (B.by_id d i)

abbrev pub owns : User → Document → Bool
owns user doc = doc.live && str_eq doc.author_id user.id

-- Another content is a new public version in front; the same content is none.
abbrev pub extend : String → Option String → List SnippetVersion → List SnippetVersion
extend i content [] = []
extend i content (v ∷ older) =
    if content_changed (some content) v.content
    then (record {
      snippet_id = i;
      version = suc (length (v ∷ older));
      content = content;
      visibility = public;
      expires_at = none;
    })
      ∷ v
      ∷ older
    else v ∷ older

-- A document takes no null title.
abbrev pub revise : String → Option String → Option String → Document → Document
revise i none content doc = doc
revise i (some title) content doc = record doc {
  title = title;
  history = extend i content doc.history;
}

abbrev pub expire : ℕ → ℕ → List SnippetVersion → List SnippetVersion
expire n t [] = []
expire n t (v ∷ older) = (if v.version == n then set_expiry t v else v) ∷ expire n t older

-- A document without versions takes no update.
abbrev pub amend : String → Option String → Option String → Document → Document
amend i title content doc = elim doc.history [ [] ↦ doc | _ ∷ _ ↦ revise i title content doc ]

-- The latest version stands for none and for 0.
abbrev pub chosen : Option ℕ → ℕ → ℕ
chosen none latest = latest
chosen (some zero) latest = latest
chosen (some (suc n)) latest = suc n

abbrev pub limit : Option ℕ → ℕ → Document → Document
limit version until doc = record doc {
  history = expire (chosen version (length doc.history)) until doc.history;
}

-- A call by a user.
pub data Edit : Type 0 where
  update : String → Option String → Option String → User → Edit
  delete : String → User → String → ℕ → Edit
  share : String → Option ℕ → SnippetOut → User → ℕ → Edit

-- Only the author's live document changes.
abbrev pub alter :
    String → User → (Document → Document) → (String → Option Document) → String → Option Document
alter i user f docs j =
    if str_eq i j then Option.map (λ doc. if owns user doc then f doc else doc) (docs j) else docs j

abbrev pub revised : Settings → Edit → (String → Option Document) → String → Option Document
revised settings (update i title content user) docs = alter i user (amend i title content) docs
revised settings (delete i user uuid now) docs =
    alter i user (λ doc. record doc { live = false }) docs
revised settings (share i version payload user now) docs =
    let until =
      compute_expires_at now
        (ttl_or_default payload.ttl_seconds settings.default_share_ttl_seconds) in
    alter i user (limit version until) docs

unfoldable pub replay : Settings → List Edit → (String → Option Document) → String → Option Document
replay settings [] docs = docs
replay settings (e ∷ es) docs = replay settings es (revised settings e docs)
