-- ===== src/Expiry/Cleanup.antt =====
-- What a cleanup leaves in the sorted set and in the cache.
use Prim.Native.Char.{Char}
use swiftpaste.Prelude.{
  ℕ, String, ◌≡◌, refl, ◌∙◌, ap, Bool, true, false, ◌||◌, Option, none, some, List, [], ◌∷◌, ◌++◌,
  leb, str_eq, eq_iff, if◌then◌else◌, arith, Bool-cases, inl, inr,
}
use swiftpaste.Prelude.Text.{decimal}
use swiftpaste.Core.Config.{Settings}
use swiftpaste.Search.{has}
use swiftpaste.Jobs.Store.{JobStore}
use swiftpaste.Jobs.Queue.{seconds}
use swiftpaste.Snippets.Backend.{Backend}
use swiftpaste.Snippets.Common.{cache_key}
use swiftpaste.Snippets.Delete.{expiry_key}
use swiftpaste.Snippets.ShortId.{base62, generate_short_id, IsDrawnFrom}
use swiftpaste.Expiry.{
  ExpiryStore, parse_key, is_short, response_key, response_keys, legacy_identifiers,
  resolve_legacy_short_ids, delete_keys, clean, cleanup_expired,
}
use swiftpaste.Expiry.Keys.{parse_key_of_generated}

-- The keys of the cache that some of the expiries name.
named : List (String × String) → List String → List String
named legacy_short_ids [] = []
named legacy_short_ids (key ∷ keys) =
    response_keys legacy_short_ids key ++ named legacy_short_ids keys

has-append : (k : String) (us vs : List String) → has k (us ++ vs) ≡ (has k us || has k vs)
has-append k [] vs = refl
has-append k (u ∷ us) vs = ground (arith, has-append k us vs)

str_eq_refl : (k : String) → str_eq k k ≡ true
str_eq_refl k = (eq_iff k k).1 refl

or_end : (b : Bool) → (b || true) ≡ true
or_end true = refl
or_end false = refl

or_true : (b c : Bool) → (b || true || c) ≡ true
or_true true c = refl
or_true false c = refl

response_keys-short :
    (legacy : List (String × String)) (key short_id version : String)
    → parse_key key ≡ some (short_id, version)
    → is_short short_id ≡ true
    → response_keys legacy key ≡ response_key short_id version ∷ response_key short_id "latest" ∷ []
unfolding response_keys
response_keys-short legacy key short_id version parsed short =
    rw (response_keys, parsed) (rw short refl)

-- An expiry of a short id names the response of its version and that of the latest.
names_response :
    (legacy : List (String × String)) (key short_id version : String) (keys : List String)
    → parse_key key ≡ some (short_id, version)
    → is_short short_id ≡ true
    → has key keys ≡ true
    → (has (response_key short_id version) (named legacy keys) ≡ true)
      × (has (response_key short_id "latest") (named legacy keys) ≡ true)
unfolding named response_keys
names_response legacy key short_id version [] parsed short member = cc
names_response legacy key short_id version (k ∷ ks) parsed short member =
    let a = response_key short_id version in
    let b = response_key short_id "latest" in
    elim (Bool-cases (str_eq k key)) [
      | inl same ↦
          let at : response_keys legacy k ≡ a ∷ b ∷ [] =
            ap (response_keys legacy) ((eq_iff k key).0 same)
            ∙ response_keys-short legacy key short_id version parsed short in
          (
            rw (at, has-append, str_eq_refl a) refl,
            rw (at, has-append, str_eq_refl b) (or_true (str_eq a b) (has b (named legacy ks))),
          )
      | inr other ↦
          let rest =
            names_response legacy key short_id version ks parsed short (rw other at member) in
          (
            rw (has-append, rest.0) (or_end (has a (response_keys legacy k))),
            rw (has-append, rest.1) (or_end (has b (response_keys legacy k))),
          )
    ]

module _ (E : ExpiryStore) where
  open E use {Store, Payload, score, cached}

  score-delete_keys :
      (ks : List String) (s : Store) (j : String) → score (delete_keys E ks s) j ≡ score s j
  unfolding delete_keys
  score-delete_keys [] s j = refl
  score-delete_keys (k ∷ ks) s j = score-delete_keys ks (E.delete k s) j ∙ E.score-delete k s j

  cached-delete_keys :
      (ks : List String) (s : Store) (j : String)
      → cached (delete_keys E ks s) j ≡ (if has j ks then none else cached s j)
  unfolding delete_keys
  cached-delete_keys [] s j = refl
  cached-delete_keys (k ∷ ks) s j =
      ground (arith, cached-delete_keys ks (E.delete k s) j, E.cached-delete k s j)

  score-clean :
      (legacy : List (String × String)) (keys : List String) (s : Store) (j : String)
      → score (clean E legacy keys s) j ≡ (if has j keys then none else score s j)
  unfolding clean
  score-clean legacy [] s j = refl
  score-clean legacy (key ∷ keys) s j =
      let ks = response_keys legacy key in
      ground (
        arith,
        score-clean legacy keys (delete_keys E ks (E.zrem key s)) j,
        score-delete_keys ks (E.zrem key s) j,
        E.score-zrem key s j,
      )

  cached-clean :
      (legacy : List (String × String)) (keys : List String) (s : Store) (j : String)
      → cached (clean E legacy keys s) j ≡ (if has j (named legacy keys) then none else cached s j)
  unfolding clean named
  cached-clean legacy [] s j = refl
  cached-clean legacy (key ∷ keys) s j =
      let ks = response_keys legacy key in
      ground (
        arith,
        cached-clean legacy keys (delete_keys E ks (E.zrem key s)) j,
        cached-delete_keys ks (E.zrem key s) j,
        E.cached-zrem key s j,
        has-append j ks (named legacy keys),
      )

  taken_due :
      (now : ℕ) (s : Store) (k : String) (o : Option ℕ)
      → score s k ≡ o
      → (if elim o [ none ↦ false | some n ↦ leb n now ] then none else score s k)
        ≡ elim o [ none ↦ none | some n ↦ if leb n now then none else some n ]
  taken_due now s k none e = e
  taken_due now s k (some n) e = ap (λ (o : Option ℕ). if leb n now then none else o) e

module _ (E : ExpiryStore) (B : Backend) (R : JobStore) (uuid : String → Option String) where
  -- A cleanup takes the expiries that are due out of the sorted set, those included whose key or
  -- identifier is none that it knows, and leaves every other one as it is.
  pub cleanup_takes_due :
      (settings : Settings) (id : String) (now : ℕ) (d : B.Db) (s : E.Store) (jobs : R.Store)
      (k : String)
      → E.score (cleanup_expired E B R uuid settings id now d (s, jobs)).0 k
        ≡ elim (E.score s k) [ none ↦ none | some n ↦ if leb n (seconds now) then none else some n ]
  unfolding cleanup_expired
  cleanup_takes_due settings id now d s jobs k =
      let expired = E.zrangebyscore (seconds now) s in
      let legacy = resolve_legacy_short_ids B uuid (legacy_identifiers expired) d in
      score-clean E legacy expired s k
      ∙ ap (λ b. if b then none else E.score s k) (E.has-zrangebyscore (seconds now) s k)
      ∙ taken_due E (seconds now) s k (E.score s k) refl

  -- Once the expiry that sharing has set on a version is due, a cleanup drops the cached responses of that
  -- version and of the latest one, for a short id of eight characters drawn from the alphabet.
  pub cleanup_drops_shared :
      (settings : Settings) (id : String) (now : ℕ) (d : B.Db) (s : E.Store) (jobs : R.Store)
      (choice : ℕ → Char) (version n : ℕ)
      → IsDrawnFrom base62 choice
      → E.score s (expiry_key (generate_short_id choice 8) version) ≡ some n
      → leb n (seconds now) ≡ true
      → let (s', _) = cleanup_expired E B R uuid settings id now d (s, jobs) in
        (E.cached s' (cache_key (generate_short_id choice 8) (some version)) ≡ none)
        × (E.cached s' (cache_key (generate_short_id choice 8) none) ≡ none)
  unfolding cleanup_expired cache_key
  cleanup_drops_shared settings id now d s jobs choice version n drawn scored due =
      let short_id = generate_short_id choice 8 in
      let expired = E.zrangebyscore (seconds now) s in
      let legacy = resolve_legacy_short_ids B uuid (legacy_identifiers expired) d in
      let (parsed, short) = parse_key_of_generated choice version drawn in
      let member : has (expiry_key short_id version) expired ≡ true =
        E.has-zrangebyscore (seconds now) s (expiry_key short_id version) ∙ rw scored due in
      let (one, latest) =
        names_response legacy (expiry_key short_id version) short_id (decimal version) expired
          parsed short member in
      (
        cached-clean E legacy expired s (response_key short_id (decimal version)) ∙ rw one refl,
        cached-clean E legacy expired s (response_key short_id "latest") ∙ rw latest refl,
      )
