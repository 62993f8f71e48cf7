-- ===== src/Routes.antt =====
-- app/api/v1/routes/snippet.py: the routes around the snippet service, each behind the rate limiter, with
-- the status of its answer or the response of the exception's handler.
pub mod Limited
pub mod Statuses
pub mod Updating
pub mod Searching
pub mod Listing
mod Tests
use swiftpaste.Prelude.{ℕ, String, Option, none, some, if◌then◌else◌}
use swiftpaste.Core.Config.{Settings}
use swiftpaste.Core.Errors.{Result, ok, err, ErrorResponse, handle}
use swiftpaste.RateLimit.Access.{Hashes, Clocks, rate_limit}
use swiftpaste.Jobs.Store.{JobStore}
use swiftpaste.Models.{
  User, SnippetCreate, SnippetUpdate, model_dump, SnippetOut, SnippetOutResponse, SnippetResponse,
}
use swiftpaste.Snippets.Backend.{Backend}
use swiftpaste.Snippets.Common.{World}
use swiftpaste.Snippets.View.{is_integer, get_snippet_cached, get_beyond_integer}
use swiftpaste.Snippets.Update.{update_snippet}
use swiftpaste.Snippets.Create.{Draw, create_snippet}
use swiftpaste.Snippets.Delete.{delete_snippet, snippet_out_url, share_beyond_integer}

-- What the code reads of a request, and the clocks when the limiter reads them.
pub record Request : Type 0 where
  pub request_id : Option String
  pub host : String
  pub clock : Clocks

pub data Response (A : Type 0) : Type 0 where
  success : ℕ → A → Response A
  failure : ErrorResponse → Response A

abbrev pub respond : {A : Type 0} → Option String → ℕ → Result A → Response A
respond request_id status (ok a) = success status a
respond request_id status (err e) = failure (handle request_id e)

abbrev pub user_id : Option User → Option String
user_id none = none
user_id (some user) = some user.id

module _ (H : Hashes) (B : Backend) (R : JobStore) (settings : Settings) where
  abbrev pub State : Type 0
  State = H.Store × World B R

  -- A handler behind `rate_limit(capacity, refill_rate)`.
  unfoldable pub limited :
      {A : Type 0}
      → Request
      → Option ℕ
      → Option ℕ
      → Option User
      → ℕ
      → (World B R → Result A × World B R)
      → State
      → Response A × State
  limited q capacity refill_rate user status handler state =
      let (result, state') =
        rate_limit H settings q.clock capacity refill_rate (user_id user) q.host handler state in
      (respond q.request_id status result, state')

  unfoldable pub create :
      Request
      → SnippetCreate
      → User
      → String
      → ℕ
      → Draw
      → Draw
      → State
      → Response SnippetResponse × State
  unfolding limited
  create q payload user uuid now first second state =
      limited q none none (some user) 201
        (λ w. create_snippet B R settings uuid now first second payload user w) state

  unfoldable pub update :
      Request → String → SnippetUpdate → User → State → Response SnippetResponse × State
  unfolding limited
  update q id payload user state =
      limited q none none (some user) 200
        (λ w. update_snippet B R settings id (model_dump payload) user w) state

  unfoldable pub delete : Request → String → User → String → ℕ → State → Response (Unit {0}) × State
  unfolding limited
  delete q id user uuid now state =
      limited q none none (some user) 204 (λ w. delete_snippet B R settings uuid now id user w)
        state

  unfoldable pub share :
      Request
      → String
      → Option ℕ
      → SnippetOut
      → User
      → ℕ
      → State
      → Response SnippetOutResponse × State
  unfolding limited
  share q id version payload user now state =
      limited q none none (some user) 201
        (λ w.
          if is_integer version
          then snippet_out_url B R settings now id version payload user w
          else share_beyond_integer B R id user w)
        state

  unfoldable pub view_snippet_out :
      Request → String → Option ℕ → Option User → ℕ → State → Response SnippetResponse × State
  unfolding limited
  view_snippet_out q short_id version user now state =
      limited q (some 5) (some 1) user 200
        (λ w.
          if is_integer version
          then get_snippet_cached B R settings short_id version user now w
          else get_beyond_integer B R short_id version w)
        state
