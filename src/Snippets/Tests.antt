-- ===== src/Snippets/Tests.antt =====
-- The snippet service at a concrete database: one snippet with a private and a public version.
use mathlib.Core.Option
use swiftpaste.Prelude.{
  ℕ, String, ◌≡◌, refl, ◌↔◌, true, Option, none, some, [], ◌∷◌, str_eq, if◌then◌else◌, ◌==◌, ◌&&◌,
}
use swiftpaste.Core.Config.{defaults}
use swiftpaste.Core.Errors.{ok, err, app, other}
use swiftpaste.Jobs.Model.{Memory, memory}
use swiftpaste.Models.{
  VisibilityType, private, public, Snippet, SnippetVersion, User, SnippetCreate, SnippetUpdate,
  SnippetResponse, model_dump, change, mark_deleted,
}
use swiftpaste.Snippets.Common.{World, with_content, cache_key, snippet_not_found}
use swiftpaste.Snippets.View.{
  access_restriction, snippet_out_view, redis_get_with_retry, get_snippet_cached,
}
use swiftpaste.Snippets.Access.{Shows, view-Shows}
use swiftpaste.Snippets.Caching.{IsOldOrPublic, read_caches_public, read_through}
use swiftpaste.Snippets.Update.{update_snippet}
use swiftpaste.Snippets.Updates.{update_adds_version, update_publishes, null_content_commits}
use swiftpaste.Snippets.Leaks.{title_update_leaks}
use swiftpaste.Snippets.Create.{
  Draw, create_snippet, insert_rows, new_snippet, integrity_error, is_short_id_error,
}
use swiftpaste.Snippets.Creates.{Created, create_is_atomic}
use swiftpaste.Snippets.Delete.{delete_snippet}
use swiftpaste.Snippets.Shares.{Refuses, delete_hides}
use swiftpaste.Snippets.Model.{Tables, in_memory}

abbrev ann : User
ann = record { id = "ann" }

abbrev bob : User
bob = record { id = "bob" }

abbrev note : Snippet
note = record {
  id = "i1";
  short_id = "aaaaaaaa";
  title = "note";
  author_id = "ann";
  created_at = 5;
  version_counter = 2;
  views = 0;
  deleted_at = none;
}

abbrev version_of : ℕ → VisibilityType → Option String → SnippetVersion
version_of n visibility content = record {
  snippet_id = "i1";
  version = n;
  content = content;
  visibility = visibility;
  expires_at = none;
}

-- Version 1 is public, version 2 is private.
abbrev tables : Tables
tables = record {
  ids = λ i. if str_eq i "i1" then some note else none;
  short_ids = λ k. if str_eq k "aaaaaaaa" then some note else none;
  versions = λ i n.
      if str_eq i "i1"
      then (if n == 1
          then some (version_of 1 public (some "old"))
          else if n == 2
          then some (version_of 2 private (some "secret"))
          else none)
      else none;
}

abbrev empty_memory : Memory
empty_memory = record { lists = λ k. []; zset = [] }

abbrev world_of : (String → Option SnippetResponse) → World in_memory memory
world_of cache = record {
  db = tables;
  cache = cache;
  expiry = λ k. none;
  jobs = empty_memory;
  metrics = record { cache_hit = 0; cache_miss = 0; cache_error = 0; version_creations = 0 };
}

abbrev world : World in_memory memory
world = world_of (λ k. none)

abbrev seen : SnippetResponse
seen =
    with_content note (version_of 2 private (some "secret")) (in_memory.author tables "ann")
      "secret"

abbrev change_to : Option String → SnippetUpdate
change_to content = record { title = some "note"; content = content }

abbrev created_payload : SnippetCreate
created_payload = record { title = "t"; content = "c"; visibility = private }

abbrev draw_of : String → String → Draw
draw_of i s = record { id = i; short_id = s }

abbrev updated_world : Option String → World in_memory memory
updated_world content =
    (update_snippet in_memory memory defaults "i1" (model_dump (change_to content)) ann world).1

view-Shows_example :
    (snippet_out_view in_memory "aaaaaaaa" none (some bob) 7 tables ≡ ok seen)
    ↔ Shows in_memory "aaaaaaaa" none (some bob) 7 tables seen
view-Shows_example = view-Shows in_memory "aaaaaaaa" none (some bob) 7 tables seen

read_caches_public_example : IsOldOrPublic in_memory memory defaults (λ k. some seen) "k" seen
unfolding get_snippet_cached redis_get_with_retry
read_caches_public_example =
    read_caches_public in_memory memory defaults "aaaaaaaa" (some 1) none 7
      (world_of (λ k. some seen)) "k" seen refl

read_through_example :
    let (result, w') =
      get_snippet_cached in_memory memory defaults "aaaaaaaa" (some 1) none 7 world in
    (result ≡ snippet_out_view in_memory "aaaaaaaa" (some 1) none 7 tables)
    × (w'.db ≡ tables)
    × (w'.metrics.cache_miss ≡ 1)
read_through_example = read_through in_memory memory defaults "aaaaaaaa" (some 1) none 7 world refl

update_adds_version_example :
    let w' = updated_world (some "new") in
    (in_memory.by_id w'.db "i1" ≡ some (record note { title = "note"; version_counter = 3 }))
    × ((j : String) (n : ℕ)
        → in_memory.version_row w'.db j n ≡ (
            if str_eq "i1" j && 3 == n
            then some (version_of 3 public (some "new"))
            else in_memory.version_row tables j n))
    × (w'.metrics.version_creations ≡ 1)
update_adds_version_example =
    update_adds_version in_memory memory defaults "note" (some "new") ann world note
      (version_of 2 private (some "secret")) refl refl refl refl

update_publishes_example :
    (snippet_out_view in_memory "aaaaaaaa" none none 7 tables ≡ err (app access_restriction))
    × ((r : SnippetResponse) × (snippet_out_view in_memory "aaaaaaaa" none none 7
            (updated_world (some "new")).db
          ≡ ok r)
        × (r.current_version.content ≡ "new"))
update_publishes_example =
    update_publishes in_memory memory defaults "note" "new" ann world note
      (version_of 2 private (some "secret")) 7 refl refl refl refl refl refl

null_content_commits_example :
    let (result, w') =
      update_snippet in_memory memory defaults "i1" (model_dump (change_to none)) ann world in
    (result ≡ err (other "UnboundLocalError"))
    × ((v : SnippetVersion) × (in_memory.version_row w'.db "i1" 3 ≡ some v) × (v.content ≡ none))
    × ((caller : Option User) (now : ℕ)
        → snippet_out_view in_memory "aaaaaaaa" none caller now w'.db
          ≡ err (other "ValidationError"))
null_content_commits_example =
    null_content_commits in_memory memory defaults "note" ann world note
      (version_of 2 private (some "secret")) "secret" refl refl refl refl refl

title_update_leaks_example :
    let w' = updated_world (some "secret") in
    (snippet_out_view in_memory "aaaaaaaa" none none 7 w'.db ≡ err (app access_restriction))
    × ((r : SnippetResponse) × ((get_snippet_cached in_memory memory defaults "aaaaaaaa" none none 7
            w').0
          ≡ ok r)
        × (r.current_version.content ≡ "secret"))
title_update_leaks_example =
    title_update_leaks in_memory memory defaults "note" "secret" ann world note
      (version_of 2 private (some "secret")) 7 refl refl refl refl refl (λ p c. refl)
      (λ c. (c (cache_key "aaaaaaaa" none), refl))

create_is_atomic_example :
    Created in_memory memory defaults "u" 5 created_payload bob
      (draw_of "i2" "aaaaaaaa" ∷ draw_of "i3" "bbbbbbbb" ∷ [])
      world
      (create_snippet in_memory memory defaults "u" 5
        (draw_of "i2" "aaaaaaaa")
        (draw_of "i3" "bbbbbbbb")
        created_payload
        bob
        world)
create_is_atomic_example =
    create_is_atomic in_memory memory defaults "u" 5 created_payload bob (draw_of "i2" "aaaaaaaa")
      (draw_of "i3" "bbbbbbbb") world

taken :
    insert_rows in_memory created_payload
      (new_snippet created_payload bob 5 (draw_of "i2" "aaaaaaaa"))
      tables
    ≡ integrity_error "duplicate key value violates ix_snippets_short_id"
unfolding insert_rows
taken = refl

taken_again :
    insert_rows in_memory created_payload
      (new_snippet created_payload bob 5 (draw_of "i3" "aaaaaaaa"))
      tables
    ≡ integrity_error "duplicate key value violates ix_snippets_short_id"
unfolding insert_rows
taken_again = refl

is_about_short_id : is_short_id_error "duplicate key value violates ix_snippets_short_id" ≡ true
unfolding is_short_id_error
is_about_short_id = refl

delete_hides_example :
    let (result, w') = delete_snippet in_memory memory defaults "u" 9 "i1" ann world in
    (result ≡ ok tt)
    × ((version : Option ℕ) (caller : Option User) (t : ℕ)
        → snippet_out_view in_memory "aaaaaaaa" version caller t w'.db
          ≡ err (app (snippet_not_found "Snippet or requested version not found")))
    × ((caller : User) → Refuses in_memory memory defaults "i1" caller w')
    × ((j : String)
        → in_memory.by_id w'.db j ≡ (
            if str_eq "i1" j
            then Option.map (change (mark_deleted 9)) (in_memory.by_id tables j)
            else in_memory.by_id tables j))
    × ((j : String) (n : ℕ) → in_memory.version_row w'.db j n ≡ in_memory.version_row tables j n)
delete_hides_example = delete_hides in_memory memory defaults "u" 9 ann world note refl refl
