-- ===== src/Bodies/Windows.antt =====
-- How long a share lasts that a request asks for.
use swiftpaste.Prelude.{
  ℕ, zero, suc, ◌+◌, ◌≤◌, String, ◌≡◌, sym, ap, true, ◌&&◌, Option, none, some, leb, Bool-cases,
  Option-cases, inl, inr, arith, if◌then◌else◌,
}
use swiftpaste.Prelude.Int.{ℤ, pos, negsuc}
use swiftpaste.Core.Config.{Settings}
use swiftpaste.Core.Errors.{Result, ok, err}
use swiftpaste.Models.{User, SnippetOut, SnippetOutResponse}
use swiftpaste.RateLimit.Access.{Hashes, rate_limiter, caller, unless_none, rate_limit}
use swiftpaste.Jobs.Store.{JobStore}
use swiftpaste.Snippets.Backend.{Backend}
use swiftpaste.Snippets.Common.{World, select_owned}
use swiftpaste.Snippets.Retries.{Result-cases}
use swiftpaste.Snippets.Delete.{
  version_or_latest, ttl_or_default, compute_expires_at, snippet_out_url, share_beyond_integer,
}
use swiftpaste.Snippets.View.{is_integer}
use swiftpaste.Routes.{Request, success, respond, State, limited, share}
use swiftpaste.Bodies.{OutBody, valid_ttl, parse_out, post_share}
use swiftpaste.Bodies.Bounds.{some_injective, ok_injective}

-- From a minute to a day.
abbrev IsWindow : ℕ → Type 0
IsWindow ttl = (60 ≤ ttl) × (ttl ≤ 86400)

ttl-IsWindow :
    (given : Option (Option ℤ)) (default : ℕ) {ttl : Option ℕ}
    → IsWindow default
    → valid_ttl given ≡ some ttl
    → IsWindow (ttl_or_default ttl default)
ttl-IsWindow none default h e = rw (← some_injective e) h
ttl-IsWindow (some none) default h e = rw (← some_injective e) h
ttl-IsWindow (some (some (negsuc n))) default h e = cc
ttl-IsWindow (some (some (pos n))) default h e = elim (Bool-cases (leb 60 n && leb n 86400)) [
  | inl fits ↦ rw (← some_injective (rw fits at e)) (between n fits)
  | inr odd ↦ cc (rw odd at e)
]
  where
    between :
        (n : ℕ) → (leb 60 n && leb n 86400) ≡ true → IsWindow (ttl_or_default (some n) default)
    between zero e = cc
    between (suc n) e = (ground (arith, e), ground (arith, e))

parsed-IsWindow :
    (body : OutBody) (default : ℕ) {payload : SnippetOut}
    → IsWindow default
    → parse_out body ≡ some payload
    → IsWindow (ttl_or_default payload.ttl_seconds default)
unfolding parse_out
parsed-IsWindow body default h e = elim (Option-cases (valid_ttl body.ttl_seconds)) [
  | inl bad ↦ cc (rw bad at e)
  | inr (ttl, given) ↦
      rw (← ap (λ (p : SnippetOut). p.ttl_seconds) (some_injective (rw given at e)))
        (ttl-IsWindow body.ttl_seconds default h given)
]

within :
    (now : ℕ) {ttl expires_at : ℕ}
    → IsWindow ttl
    → expires_at ≡ compute_expires_at now ttl
    → (now + 60000 ≤ expires_at) × (expires_at ≤ now + 86400000)
within now (low, high) e = (omega arith, omega arith)

success_injective : {A : Type 0} {m n : ℕ} {a b : A} → success m a ≡ success n b → a ≡ b
success_injective e = cc

module _ (B : Backend) (R : JobStore) (settings : Settings) where
  share_expires :
      (now : ℕ) (i : String) (version : Option ℕ) (payload : SnippetOut) (user : User)
      (w : World B R) {out : SnippetOutResponse}
      → (snippet_out_url B R settings now i version payload user w).0 ≡ ok out
      → out.expires_at
        ≡ compute_expires_at now
            (ttl_or_default payload.ttl_seconds settings.default_share_ttl_seconds)
  unfolding snippet_out_url
  share_expires now i version payload user w e = elim (Option-cases (select_owned B w.db i user)) [
    | inl missing ↦ cc (rw (missing, snippet_out_url) at e)
    | inr (x, found) ↦ elim (Option-cases (B.version_row w.db i (version_or_latest version x))) [
      | inl missing ↦ cc (rw (found, missing, snippet_out_url) at e)
      | inr (v, there) ↦ sym (
          ap (λ (r : SnippetOutResponse). r.expires_at)
            (ok_injective (rw (found, there, snippet_out_url) at e)))
    ]
  ]

  -- A share that is answered is one of a version that an Integer holds.
  held_version :
      (now : ℕ) (i : String) (version : Option ℕ) (payload : SnippetOut) (user : User)
      (w : World B R) {out : SnippetOutResponse}
      → (if is_integer version
          then snippet_out_url B R settings now i version payload user w
          else share_beyond_integer B R i user w).0
        ≡ ok out
      → (snippet_out_url B R settings now i version payload user w).0 ≡ ok out
  unfolding share_beyond_integer
  held_version now i version payload user w e = elim (Bool-cases (is_integer version)) [
    | inl held ↦ rw held at e
    | inr beyond ↦ elim (Option-cases (select_owned B w.db i user)) [
      | inl missing ↦ absurd (cc (rw (missing, share_beyond_integer) at (rw beyond at e)))
      | inr (x, found) ↦ absurd (cc (rw (found, share_beyond_integer) at (rw beyond at e)))
    ]
  ]

  module _ (H : Hashes) where
    limited_share :
        (q : Request) (user : User) (handler : World B R → Result SnippetOutResponse × World B R)
        (state : State H B R settings) {out : SnippetOutResponse}
        → (limited H B R settings q none none (some user) 201 handler state).0 ≡ success 201 out
        → (handler state.1).0 ≡ ok out
    unfolding limited rate_limit
    limited_share q user handler (s, w) e =
        elim (Result-cases
          (rate_limiter H settings q.clock (caller (some user.id) q.host)
            (some (unless_none none settings.capacity))
            (some (unless_none none settings.refill_rate)) s).0) [
              | inl (f, refused) ↦ cc (rw (refused, limited, rate_limit) at e)
              | inr (_, granted) ↦ answered (handler w).0 (rw (granted, limited, rate_limit) at e)
            ]
      where
        answered :
            (r : Result SnippetOutResponse) {out : SnippetOutResponse}
            → respond q.request_id 201 r ≡ success 201 out
            → r ≡ ok out
        answered (ok a) e = ap (λ x. ok x) (success_injective e)
        answered (err f) e = cc

    -- Where the default is a minute to a day: a share that is answered lasts from a minute to a day,
    -- whatever the body of the request is.
    pub shared_window_is_bounded :
        (q : Request) (i : String) (version : Option ℕ) (body : OutBody) (user : User) (now : ℕ)
        (state : State H B R settings) {out : SnippetOutResponse}
        → 60 ≤ settings.default_share_ttl_seconds
        → settings.default_share_ttl_seconds ≤ 86400
        → (post_share H B R settings q i version body user now state).0 ≡ success 201 out
        → (now + 60000 ≤ out.expires_at) × (out.expires_at ≤ now + 86400000)
    unfolding post_share share
    shared_window_is_bounded q i version body user now state low high e =
        elim (Option-cases (parse_out body)) [
          | inl bad ↦ cc (rw bad at e)
          | inr (payload, parsed) ↦
              let until = share_expires now i version payload user state.1 (
                held_version now i version payload user state.1 (
                  limited_share q user
                    (λ w.
                      if is_integer version
                      then snippet_out_url B R settings now i version payload user w
                      else share_beyond_integer B R i user w)
                    state (rw parsed at e))) in
              let window =
                parsed-IsWindow body settings.default_share_ttl_seconds (low, high) parsed in
              within now window until
        ]
