-- ===== src/Routes/Statuses.antt =====
-- The status of an answer, and that the limiter adds none but 429.
use swiftpaste.Prelude.{
  ℕ, String, ◌≡◌, Bool, true, false, ◌||◌, Option, some, List, [], ◌∷◌, ◌==◌, Bool-cases, inl, inr,
}
use swiftpaste.Core.Config.{Settings}
use swiftpaste.Core.Errors.{Result}
use swiftpaste.RateLimit.Access.{
  Hashes, or_default, rate_key, run_script, rate_limiter, caller, unless_none, rate_limit,
}
use swiftpaste.Prelude.Int.{pos}
use swiftpaste.Jobs.Store.{JobStore}
use swiftpaste.Models.{User}
use swiftpaste.Snippets.Backend.{Backend}
use swiftpaste.Snippets.Common.{World}
use swiftpaste.Routes.{Request, Response, success, failure, respond, user_id, limited}

abbrev pub status_of : {A : Type 0} → Response A → ℕ
status_of (success status a) = status
status_of (failure e) = e.status

abbrev pub one_of : ℕ → List ℕ → Bool
one_of n [] = false
one_of n (m ∷ ms) = n == m || one_of n ms

-- A result under a request id, with its status where it is a value.
abbrev pub Answers : {A : Type 0} → Option String → ℕ → List ℕ → Result A → Type 0
Answers id status statuses r = one_of (status_of (respond id status r)) statuses ≡ true

module _ (H : Hashes) (B : Backend) (R : JobStore) (settings : Settings) where
  pub limited-Answers :
      {A : Type 0} (q : Request) (capacity rate : Option ℕ) (user : Option User) (status : ℕ)
      (handler : World B R → Result A × World B R) (statuses : List ℕ) (s : H.Store) (w : World B R)
      → one_of 429 statuses ≡ true
      → Answers q.request_id status statuses (handler w).0
      → one_of
          (status_of (limited H B R settings q capacity rate user status handler (s, w)).0)
          statuses
        ≡ true
  unfolding limited rate_limit rate_limiter
  limited-Answers q capacity rate user status handler statuses s w refusal passes =
      elim (Bool-cases (
        (run_script H (rate_key (caller (user_id user) q.host))
          (pos (or_default (some (unless_none capacity settings.capacity)) settings.capacity))
          (pos (or_default (some (unless_none rate settings.refill_rate)) settings.refill_rate))
          q.clock s).0
        == 0)) [
          | inl refused ↦ rw (refused, limited, rate_limit, rate_limiter) refusal
          | inr allowed ↦ rw (allowed, limited, rate_limit, rate_limiter) passes
        ]
