-- ===== src/Bodies.antt =====
-- The request bodies of app/schemas/snippet.py with the bounds of their fields, and the CHECK constraints of
-- the table in app/models/snippet.py.
pub mod Bounds
pub mod Checks
pub mod Windows
mod Tests
use Prim.Native.String
use swiftpaste.Prelude.{ℕ, String, ◌≡◌, Bool, ◌&&◌, Option, none, some, ◌≤◌, leb, if◌then◌else◌}
use swiftpaste.Prelude.Int.{ℤ, pos, negsuc}
use swiftpaste.Core.Errors.{invalid_request, handle}
use swiftpaste.Models.{
  VisibilityType, public, Snippet, SnippetCreate, SnippetUpdate, SnippetOut, SnippetResponse,
  SnippetOutResponse, User,
}
use swiftpaste.RateLimit.Access.{Hashes}
use swiftpaste.Jobs.Store.{JobStore}
use swiftpaste.Core.Config.{Settings}
use swiftpaste.Snippets.Backend.{Backend}
use swiftpaste.Snippets.Create.{Draw}
use swiftpaste.Routes.{Request, Response, failure, State, create, update, share}

-- `expires_at` and `author_id` of a creation are left out: no operation reads them.
-- A key of a JSON object: it is absent (`none`), null (`some none`) or has a value of the field's type.
pub record CreateBody : Type 0 where
  pub title : Option (Option String)
  pub content : Option (Option String)
  pub visibility : Option (Option VisibilityType)

pub record UpdateBody : Type 0 where
  pub title : Option (Option String)
  pub content : Option (Option String)

pub record OutBody : Type 0 where
  pub ttl_seconds : Option (Option ℤ)

-- `min_length`, `max_length`: the number of characters.
abbrev pub has_length_in : ℕ → ℕ → String → Bool
has_length_in low high t = leb low (String.count t) && leb (String.count t) high

-- A field without a default: `str`, and `Optional[str]`.
abbrev pub required : ℕ → ℕ → Option (Option String) → Option String
required low high none = none
required low high (some none) = none
required low high (some (some t)) = if has_length_in low high t then some t else none

abbrev pub nullable : ℕ → ℕ → Option (Option String) → Option (Option String)
nullable low high none = none
nullable low high (some none) = some none
nullable low high (some (some t)) = if has_length_in low high t then some (some t) else none

-- `visibility: VisibilityType = VisibilityType.PUBLIC`
abbrev pub or_public : Option (Option VisibilityType) → Option VisibilityType
or_public none = some public
or_public (some none) = none
or_public (some (some v)) = some v

-- `Field(default=None, ge=60, le=60 * 60 * 24)`
abbrev pub valid_ttl : Option (Option ℤ) → Option (Option ℕ)
valid_ttl none = some none
valid_ttl (some none) = some none
valid_ttl (some (some (negsuc n))) = none
valid_ttl (some (some (pos n))) = if leb 60 n && leb n 86400 then some (some n) else none

-- The next field is read where this one fits.
infixl 20 ◌>>=◌
abbrev pub ◌>>=◌ : {A B : Type 0} → Option A → (A → Option B) → Option B
none >>= f = none
some a >>= f = f a

unfoldable pub parse_create : CreateBody → Option SnippetCreate
parse_create body = do
  title ← required 1 1000 body.title
  content ← required 1 50000 body.content
  visibility ← or_public body.visibility
  some (record { title = title; content = content; visibility = visibility })

unfoldable pub parse_update : UpdateBody → Option SnippetUpdate
parse_update body = do
  title ← nullable 1 1000 body.title
  content ← nullable 1 50000 body.content
  some (record { title = title; content = content })

unfoldable pub parse_out : OutBody → Option SnippetOut
parse_out body = do
  ttl_seconds ← valid_ttl body.ttl_seconds
  some (record { ttl_seconds = ttl_seconds })

module _ (H : Hashes) (B : Backend) (R : JobStore) (settings : Settings) where
  -- FastAPI checks the body before it calls the route: what does not fit is RequestValidationError.
  abbrev pub with_body :
      {A P : Type 0}
      → Request
      → Option P
      → (P → State H B R settings → Response A × State H B R settings)
      → State H B R settings
      → Response A × State H B R settings
  with_body q none route state = (failure (handle q.request_id invalid_request), state)
  with_body q (some payload) route state = route payload state

  unfoldable pub post_snippet :
      Request
      → CreateBody
      → User
      → String
      → ℕ
      → Draw
      → Draw
      → State H B R settings
      → Response SnippetResponse × State H B R settings
  unfolding parse_create
  post_snippet q body user uuid now first second state =
      with_body q (parse_create body)
        (λ payload. create H B R settings q payload user uuid now first second) state

  unfoldable pub put_snippet :
      Request
      → String
      → UpdateBody
      → User
      → State H B R settings
      → Response SnippetResponse × State H B R settings
  unfolding parse_update
  put_snippet q id body user state =
      with_body q (parse_update body) (λ payload. update H B R settings q id payload user) state

  unfoldable pub post_share :
      Request
      → String
      → Option ℕ
      → OutBody
      → User
      → ℕ
      → State H B R settings
      → Response SnippetOutResponse × State H B R settings
  unfolding parse_out
  post_share q id version body user now state =
      with_body q (parse_out body) (λ payload. share H B R settings q id version payload user now)
        state
