-- ===== src/Routes/Tests.antt =====
-- The routes at concrete stores.
use swiftpaste.Prelude.{ℕ, String, ◌≡◌, refl, Option, none, some, []}
use swiftpaste.Prelude.Int.{pos, int_laws, ◌+ℤ◌, ◌-ℤ◌, ◌*ℤ◌}
use swiftpaste.Core.Config.{defaults}
use swiftpaste.Core.Errors.{ErrorResponse}
use swiftpaste.RateLimit.{token_bucket}
use swiftpaste.RateLimit.Model.{Memory, hashes}
use swiftpaste.Jobs.Model.{memory}
use swiftpaste.Models.{User, SnippetCreate, SnippetUpdate, SnippetOut}
use swiftpaste.Snippets.Common.{World}
use swiftpaste.Snippets.Create.{Draw}
use swiftpaste.Snippets.Model.{in_memory}
use swiftpaste.Routes.{Request, failure, create, update, delete, share}
use swiftpaste.Routes.Limited.{empty_bucket_refuses}

-- The bucket of every key is empty since the time 100, and expires an hour after it.
abbrev drained : Memory
drained k = some (record { tokens = pos 0; last_refill = pos 100 }, some 3700000)

abbrev world : World in_memory memory
world = record {
  db = record { ids = λ i. none; short_ids = λ k. none; versions = λ i n. none };
  cache = λ k. none;
  expiry = λ k. none;
  jobs = record { lists = λ k. []; zset = [] };
  metrics = record { cache_hit = 0; cache_miss = 0; cache_error = 0; version_creations = 0 };
}

abbrev request : Request
request = record {
  request_id = some "r";
  host = "h";
  clock = record { server = pos 100; redis = 100500 };
}

abbrev ann : User
ann = record { id = "ann" }

abbrev refusal : ErrorResponse
refusal = record {
  status = 429;
  code = "RATE_LIMIT_EXCEEDED";
  message = "Rate Limit Exceeded";
  details = none;
  request_id = some "r";
}

empty_bucket_refuses_example :
    ((payload : SnippetCreate) (uuid : String) (now : ℕ) (first second : Draw)
      → create hashes in_memory memory defaults request payload ann uuid now first second
          (drained, world)
        ≡ (failure refusal, (drained, world)))
    × ((id : String) (payload : SnippetUpdate)
        → update hashes in_memory memory defaults request id payload ann (drained, world)
          ≡ (failure refusal, (drained, world)))
    × ((id uuid : String) (now : ℕ)
        → delete hashes in_memory memory defaults request id ann uuid now (drained, world)
          ≡ (failure refusal, (drained, world)))
    × ((id : String) (version : Option ℕ) (payload : SnippetOut) (now : ℕ)
        → share hashes in_memory memory defaults request id version payload ann now (drained, world)
          ≡ (failure refusal, (drained, world)))
unfolding token_bucket ◌+ℤ◌ ◌-ℤ◌ ◌*ℤ◌
empty_bucket_refuses_example =
    empty_bucket_refuses hashes in_memory memory defaults request ann drained world
      (record { tokens = pos 0; last_refill = pos 100 }, refl, omega int_laws)
