-- ===== src/Bodies/Tests.antt =====
-- Requests with bodies, on a table with one row.
use Prim.Native.Char.{Char}
use swiftpaste.Prelude.{
  ℕ, ◌≤◌, String, ◌≡◌, refl, ◌&&◌, Option, none, some, [], ◌==◌, str_eq, if◌then◌else◌, arith,
  Bool-cases, inl, inr,
}
use swiftpaste.Prelude.Text.{decimal}
use swiftpaste.Prelude.Int.{pos, negsuc, ◌+ℤ◌, ◌-ℤ◌, ◌*ℤ◌}
use swiftpaste.Core.Config.{defaults}
use swiftpaste.RateLimit.{token_bucket}
use swiftpaste.RateLimit.Access.{rate_limiter, run_script, rate_limit}
use swiftpaste.Jobs.Model.{memory}
use swiftpaste.Models.{private, User, Snippet, SnippetVersion, SnippetOutResponse}
use swiftpaste.Snippets.Delete.{snippet_out_url}
use swiftpaste.Snippets.Model.{in_memory}
use swiftpaste.Routes.{Request, State, limited, share, delete, view_snippet_out}
use swiftpaste.RateLimit.Model.{hashes}
use swiftpaste.Bodies.{
  CreateBody, UpdateBody, OutBody, parse_create, parse_update, parse_out, post_snippet, put_snippet,
  post_share,
}
use swiftpaste.Bodies.Bounds.{AllFit, some_injective}
use swiftpaste.Bodies.Checks.{draw_with, requests_keep_checks}
use swiftpaste.Bodies.Windows.{shared_window_is_bounded}

abbrev request : Request
request = record {
  request_id = some "r";
  host = "h";
  clock = record { server = pos 100; redis = 100500 };
}

abbrev ann : User
ann = record { id = "ann" }

abbrev row : Snippet
row = record {
  id = "i1";
  short_id = "aaaaaaaa";
  title = "t";
  author_id = "ann";
  created_at = 5;
  version_counter = 1;
  views = 0;
  deleted_at = none;
}

abbrev version : SnippetVersion
version = record {
  snippet_id = "i1";
  version = 1;
  content = some "c";
  visibility = private;
  expires_at = none;
}

-- Nobody has a bucket yet.
abbrev state : State hashes in_memory memory defaults
state = (
  λ k. none,
  record {
    db = record {
      ids = λ i. if str_eq i "i1" then some row else none;
      short_ids = λ k. if str_eq k "aaaaaaaa" then some row else none;
      versions = λ i n. if str_eq i "i1" && n == 1 then some version else none;
    };
    cache = λ k. none;
    expiry = λ k. none;
    jobs = record { lists = λ k. []; zset = [] };
    metrics = record { cache_hit = 0; cache_miss = 0; cache_error = 0; version_creations = 0 };
  },
)

state-AllFit : AllFit in_memory state.1.db
state-AllFit k x found = elim (Bool-cases (str_eq k "aaaaaaaa")) [
  | inl same ↦ rw (← some_injective (rw same at found)) (refl, refl)
  | inr other ↦ cc (rw other at found)
]

requests_keep_checks_example :
    ((q : Request) (body : CreateBody) (user : User) (uuid : String) (now : ℕ) (i j : String)
        (choice choice' : ℕ → Char)
      → AllFit in_memory
          (post_snippet hashes in_memory memory defaults q body user uuid now
            (draw_with i choice)
            (draw_with j choice')
            state).1.1.db)
    × ((q : Request) (i : String) (body : UpdateBody) (user : User)
        → AllFit in_memory
            (put_snippet hashes in_memory memory defaults q i body user state).1.1.db)
    × ((q : Request) (i : String) (version : Option ℕ) (body : OutBody) (user : User) (now : ℕ)
        → AllFit in_memory
            (post_share hashes in_memory memory defaults q i version body user now state).1.1.db)
    × ((q : Request) (i : String) (user : User) (uuid : String) (now : ℕ)
        → AllFit in_memory (delete hashes in_memory memory defaults q i user uuid now state).1.1.db)
    × ((q : Request) (short_id : String) (version : Option ℕ) (user : Option User) (now : ℕ)
        → AllFit in_memory
            (view_snippet_out hashes in_memory memory defaults q short_id version user now
              state).1.1.db)
requests_keep_checks_example =
    requests_keep_checks in_memory memory defaults hashes state state-AllFit

abbrev hour : OutBody
hour = record { ttl_seconds = some (some (pos 3600)) }

abbrev shared : SnippetOutResponse
shared = record { share_url = "http://localhost:8000/view/aaaaaaaa?v=1"; expires_at = 3601000 }

shared_window_is_bounded_example : (61000 ≤ 3601000) × (3601000 ≤ 86401000)
unfolding post_share parse_out share limited rate_limit rate_limiter run_script token_bucket
    snippet_out_url decimal ◌+ℤ◌ ◌-ℤ◌ ◌*ℤ◌
shared_window_is_bounded_example =
    shared_window_is_bounded in_memory memory defaults hashes request "i1" none hour ann 1000 state
      {out = shared} (omega arith) (omega arith) refl

-- A minute less a second, and a negative time, are refused, as are an empty title and an absent content.
short_time : parse_out (record { ttl_seconds = some (some (pos 59)) }) ≡ none
unfolding parse_out
short_time = refl

negative_time : parse_out (record { ttl_seconds = some (some (negsuc 0)) }) ≡ none
unfolding parse_out
negative_time = refl

empty_title :
    parse_create (record { title = some (some ""); content = some (some "c"); visibility = none })
    ≡ none
unfolding parse_create
empty_title = refl

absent_content : parse_update (record { title = some (some "t"); content = none }) ≡ none
unfolding parse_update
absent_content = refl

-- Null passes for both fields of an update.
null_fields :
    parse_update (record { title = some none; content = some none })
    ≡ some (record { title = none; content = none })
unfolding parse_update
null_fields = refl
