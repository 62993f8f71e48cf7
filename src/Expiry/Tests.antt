-- ===== src/Expiry/Tests.antt =====
-- A cleanup of a store in memory.
use Prim.Native.Char.{Char}
use swiftpaste.Prelude.{ℕ, ◌≡◌, refl, true, none, some, [], ◌∷◌, str_eq, if◌then◌else◌}
use swiftpaste.Prelude.Text.{decimal}
use swiftpaste.Core.Config.{defaults}
use swiftpaste.Jobs.Model.{Memory, memory}
use swiftpaste.Snippets.Model.{Tables, in_memory}
use swiftpaste.Snippets.Common.{cache_key}
use swiftpaste.Snippets.ShortId.{base62, generate_short_id, IsDrawnFrom}
use swiftpaste.Expiry.Model.{Redis, redis}
use swiftpaste.Expiry.{parse_key, is_short, cleanup_expired}
use swiftpaste.Expiry.Keys.{parse_key_of_generated}
use swiftpaste.Expiry.Cleanup.{cleanup_drops_shared}

abbrev tables : Tables
tables = record { ids = λ i. none; short_ids = λ k. none; versions = λ i n. none }

abbrev choice : ℕ → Char
choice k = "a"

choice-IsDrawnFrom : IsDrawnFrom base62 choice
choice-IsDrawnFrom k = refl

-- The first version of `aaaaaaaa` is due, the second is not.
abbrev filled : Redis
filled = record {
  keys = "snippet:aaaaaaaa:1" ∷ "snippet:aaaaaaaa:2" ∷ "odd" ∷ [];
  scores = λ k. if str_eq k "snippet:aaaaaaaa:2" then some 90 else some 5;
  strings = λ k. some "payload";
}

abbrev jobs : Memory
jobs = record { lists = λ k. []; zset = [] }

abbrev cleaned : Redis
cleaned =
    (cleanup_expired redis in_memory memory (λ s. none) defaults "u" 20000 tables (filled, jobs)).0

cleanup_drops_shared_example :
    (cleaned.strings (cache_key "aaaaaaaa" (some 1)) ≡ none)
    × (cleaned.strings (cache_key "aaaaaaaa" none) ≡ none)
unfolding generate_short_id decimal
cleanup_drops_shared_example =
    cleanup_drops_shared redis in_memory memory (λ s. none) defaults "u" 20000 tables filled jobs
      choice 1 5 choice-IsDrawnFrom refl refl

parse_key_of_generated_example :
    (parse_key "snippet:aaaaaaaa:12" ≡ some ("aaaaaaaa", "12")) × (is_short "aaaaaaaa" ≡ true)
unfolding generate_short_id decimal
parse_key_of_generated_example = parse_key_of_generated choice 12 choice-IsDrawnFrom
