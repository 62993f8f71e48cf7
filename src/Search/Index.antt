-- ===== src/Search/Index.antt =====
-- What indexing and removing leave in the sets of the index and in the cache.
use swiftpaste.Prelude.{
  String, ◌≡◌, refl, ◌∙◌, ap, not, ◌&&◌, ◌||◌, Option, none, List, [], ◌∷◌, arith, str_eq, eq_iff,
  if◌then◌else◌,
}
use swiftpaste.Prelude.Text.{str_eq-str_append}
use swiftpaste.Jobs.Store.{snippet_fields}
use swiftpaste.Search.{
  IndexStore, has, distinct, index_key, cache_prefix, tokenize, add_all, remove_all, delete_all,
  index_snippet, remove_index,
}

pub has-distinct : (t : String) (ws : List String) → has t (distinct ws) ≡ has t ws
unfolding distinct
has-distinct t [] = refl
has-distinct t (w ∷ ws) = ground (arith, has-distinct t ws, eq_iff w t)

module _ (I : IndexStore) (findall : String → List String) where
  open I use {Store, Payload, is_member, cached, scan_iter}

  pub is_member-add_all :
      (tokens : List String) (short_id : String) (s : Store) (t m : String)
      → is_member (add_all I findall tokens short_id s) (index_key t) m
        ≡ ((has t tokens && str_eq short_id m) || is_member s (index_key t) m)
  unfolding add_all
  is_member-add_all [] short_id s t m = refl
  is_member-add_all (u ∷ us) short_id s t m =
      let s' = I.sadd (index_key u) short_id s in
      ground (
        arith,
        is_member-add_all us short_id s' t m,
        I.is_member-sadd (index_key u) short_id s (index_key t) m,
        str_eq-str_append "search:index:" u t,
      )

  pub is_member-remove_all :
      (tokens : List String) (short_id : String) (s : Store) (t m : String)
      → is_member (remove_all I findall tokens short_id s) (index_key t) m
        ≡ (not (has t tokens && str_eq short_id m) && is_member s (index_key t) m)
  unfolding remove_all
  is_member-remove_all [] short_id s t m = refl
  is_member-remove_all (u ∷ us) short_id s t m =
      let s' = I.srem (index_key u) short_id s in
      ground (
        arith,
        is_member-remove_all us short_id s' t m,
        I.is_member-srem (index_key u) short_id s (index_key t) m,
        str_eq-str_append "search:index:" u t,
      )

  pub is_member-delete_all :
      (keys : List String) (s : Store) (k m : String)
      → is_member (delete_all I findall keys s) k m ≡ is_member s k m
  unfolding delete_all
  is_member-delete_all [] s k m = refl
  is_member-delete_all (key ∷ keys) s k m =
      is_member-delete_all keys (I.delete key s) k m ∙ I.is_member-delete key s k m

  cached-remove_all :
      (tokens : List String) (short_id : String) (s : Store) (k : String)
      → cached (remove_all I findall tokens short_id s) k ≡ cached s k
  unfolding remove_all
  cached-remove_all [] short_id s k = refl
  cached-remove_all (u ∷ us) short_id s k =
      cached-remove_all us short_id (I.srem (index_key u) short_id s) k
      ∙ I.cached-srem (index_key u) short_id s k

  cached-delete_all :
      (keys : List String) (s : Store) (k : String)
      → cached (delete_all I findall keys s) k ≡ (if has k keys then none else cached s k)
  unfolding delete_all
  cached-delete_all [] s k = refl
  cached-delete_all (key ∷ keys) s k =
      ground (arith, cached-delete_all keys (I.delete key s) k, I.cached-delete key s k)

  -- A snippet is indexed with one text and later removed with another, as it is after an update. Then it
  -- is in the set of a word exactly if the word is in the first text and not in the second, or if it was
  -- there before and the word is not in the second; any other snippet is in the sets that it was in.
  pub is_member-remove_index-index_snippet :
      (id short_id old new : String) (s : Store) (t m : String)
      → let (_, s₁) = index_snippet I findall (snippet_fields id short_id old) s in
        let (_, s₂) = remove_index I findall (snippet_fields id short_id new) s₁ in
        is_member s₂ (index_key t) m ≡ (
          if str_eq short_id m
          then not (has t (findall new)) && (has t (findall old) || is_member s (index_key t) m)
          else is_member s (index_key t) m)
  unfolding index_snippet remove_index tokenize
  is_member-remove_index-index_snippet id short_id old new s t m =
      let s₁ = add_all I findall (tokenize findall old) short_id s in
      let s₂ = remove_all I findall (tokenize findall new) short_id s₁ in
      ground (
        arith,
        is_member-delete_all (scan_iter s₁ (cache_prefix short_id)) s₂ (index_key t) m,
        is_member-remove_all (tokenize findall new) short_id s₁ t m,
        is_member-add_all (tokenize findall old) short_id s t m,
        has-distinct t (findall new),
        has-distinct t (findall old),
      )

  -- Removing a snippet drops the keys of the cache that the scan lists for it, and no other key.
  pub cached-remove_index :
      (id short_id text : String) (s : Store) (k : String)
      → cached (remove_index I findall (snippet_fields id short_id text) s).1 k
        ≡ (if has k (scan_iter s (cache_prefix short_id)) then none else cached s k)
  unfolding remove_index
  cached-remove_index id short_id text s k =
      let s' = remove_all I findall (tokenize findall text) short_id s in
      cached-delete_all (scan_iter s (cache_prefix short_id)) s' k
      ∙ ap (λ (o : Option Payload). if has k (scan_iter s (cache_prefix short_id)) then none else o)
          (cached-remove_all (tokenize findall text) short_id s k)
