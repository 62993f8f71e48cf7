-- ===== src/Routes/Listing.antt =====
-- The route that lists the snippets of the caller.
use swiftpaste.Prelude.{none, some}
use swiftpaste.Core.Config.{Settings}
use swiftpaste.Core.Errors.{ok}
use swiftpaste.Models.{User}
use swiftpaste.RateLimit.Access.{Hashes}
use swiftpaste.Jobs.Store.{JobStore}
use swiftpaste.Snippets.Backend.{Backend}
use swiftpaste.Snippets.Listing.{SnippetMetaResponse, Params, Page, Listing, get_all_snippet}
use swiftpaste.Routes.{Request, Response, State, limited}

-- `listing` is what PostgreSQL answers when it holds a database.
unfoldable pub get_all :
    (H : Hashes) (B : Backend) (R : JobStore) (settings : Settings)
    → ((d : B.Db) → Listing B d)
    → Request
    → User
    → Params
    → State H B R settings
    → Response (Page SnippetMetaResponse) × State H B R settings
unfolding limited
get_all H B R settings listing q user params state =
    limited H B R settings q none none (some user) 200
      (λ w. (ok (get_all_snippet B w.db (listing w.db) user params), w)) state
