-- ===== src/Bodies/Checks.antt =====
-- The requests that the routes accept, and the CHECK constraints of the table.
use Prim.Native.Char.{Char}
use Prim.Native.String
use swiftpaste.Prelude.{
  ℕ, String, ◌≡◌, refl, ◌∙◌, sym, arith, Option, none, some, [], ◌∷◌, if◌then◌else◌, Bool-cases,
  Option-cases, inl, inr,
}
use swiftpaste.Core.Config.{Settings}
use swiftpaste.Core.Errors.{Result}
use swiftpaste.Models.{User, SnippetCreate, SnippetUpdate, SnippetOut, mark_deleted, model_dump}
use swiftpaste.RateLimit.Access.{Hashes, rate_limiter, caller, unless_none, rate_limit}
use swiftpaste.Jobs.Store.{JobStore}
use swiftpaste.Snippets.Backend.{Backend}
use swiftpaste.Snippets.Common.{World, select_owned}
use swiftpaste.Snippets.Caching.{read_keeps_db}
use swiftpaste.Snippets.Retries.{Result-cases}
use swiftpaste.Snippets.View.{is_integer, get_snippet_cached, get_beyond_integer}
use swiftpaste.Snippets.ShortId.{generate_short_id, count-generate_short_id}
use swiftpaste.Snippets.Create.{Draw, new_snippet, create_snippet}
use swiftpaste.Snippets.Creates.{IsDrawn}
use swiftpaste.Snippets.Update.{update_snippet}
use swiftpaste.Snippets.Keeps.{create_loop-keeps, update_snippet-keeps}
use swiftpaste.Snippets.Delete.{
  version_or_latest, delete_snippet, snippet_out_url, share_beyond_integer,
}
use swiftpaste.Routes.{
  Request, State, user_id, limited, create, update, delete, share, view_snippet_out,
}
use swiftpaste.Bodies.{
  CreateBody, UpdateBody, OutBody, parse_create, parse_update, parse_out, post_snippet, put_snippet,
  post_share,
}
use swiftpaste.Bodies.Bounds.{
  AllFit, AllFit-change, AllFit-title, AllFit-inserted, AllFit-version, some_injective,
  created_title, updated_title,
}

-- What an attempt draws: `generate_short_id()` with its default length.
abbrev pub draw_with : String → (ℕ → Char) → Draw
draw_with id choice = record { id = id; short_id = generate_short_id choice 8 }

module _ (B : Backend) (R : JobStore) (settings : Settings) where
  create-AllFit :
      (uuid : String) (now : ℕ) (i j : String) (choice choice' : ℕ → Char) (body : CreateBody)
      (user : User) (w : World B R) {payload : SnippetCreate}
      → parse_create body ≡ some payload
      → AllFit B w.db
      → AllFit B
          (create_snippet B R settings uuid now
            (draw_with i choice)
            (draw_with j choice')
            payload
            user
            w).1.db
  unfolding create_snippet
  create-AllFit uuid now i j choice choice' body user w {payload} parsed fit =
      create_loop-keeps B R settings (AllFit B) uuid now payload user
        (draw_with i choice ∷ draw_with j choice' ∷ []) w
        (λ draw d' drawn done.
          AllFit-inserted B payload (new_snippet payload user now draw) w.db d'
            (short draw drawn, created_title body parsed) done fit)
        fit
    where
      short :
          (draw : Draw)
          → IsDrawn draw (draw_with i choice ∷ draw_with j choice' ∷ [])
          → String.count draw.short_id ≡ 8
      short draw (inl first) = rw first (count-generate_short_id choice 8)
      short draw (inr (inl second)) = rw second (count-generate_short_id choice' 8)
      short draw (inr (inr none_more)) = elim none_more [ ]

  update-AllFit :
      (i : String) (body : UpdateBody) (user : User) (w : World B R) {payload : SnippetUpdate}
      → parse_update body ≡ some payload
      → AllFit B w.db
      → AllFit B (update_snippet B R settings i (model_dump payload) user w).1.db
  unfolding model_dump
  update-AllFit i body user w {payload} parsed fit =
      update_snippet-keeps B R settings (AllFit B) i (model_dump payload) user w
        (λ title given d.
          AllFit-title B i title d (updated_title body parsed (some_injective given)))
        (λ content visibility v d d' done. AllFit-version B i content visibility v d d' done) fit

  delete-AllFit :
      (uuid : String) (now : ℕ) (i : String) (user : User) (w : World B R)
      → AllFit B w.db
      → AllFit B (delete_snippet B R settings uuid now i user w).1.db
  unfolding delete_snippet
  delete-AllFit uuid now i user w fit = elim (Option-cases (select_owned B w.db i user)) [
    | inl missing ↦ rw (missing, delete_snippet) fit
    | inr (x, found) ↦
        rw (found, delete_snippet)
          (AllFit-change B x.id (mark_deleted now) w.db (λ y fits. fits) fit)
  ]

  share-AllFit :
      (now : ℕ) (i : String) (version : Option ℕ) (payload : SnippetOut) (user : User)
      (w : World B R)
      → AllFit B w.db
      → AllFit B (snippet_out_url B R settings now i version payload user w).1.db
  unfolding snippet_out_url
  share-AllFit now i version payload user w fit = elim (Option-cases (select_owned B w.db i user)) [
    | inl missing ↦ rw (missing, snippet_out_url) fit
    | inr (x, found) ↦ elim (Option-cases (B.version_row w.db i (version_or_latest version x))) [
      | inl missing ↦ rw (found, missing, snippet_out_url) fit
      | inr (v, there) ↦
          rw (found, there, snippet_out_url)
            (λ k y at. fit k y (sym (B.by_short_id-update_expiry _ _ _ w.db k) ∙ at))
    ]
  ]

  beyond_shares_nothing :
      (i : String) (user : User) (w : World B R) → (share_beyond_integer B R i user w).1.db ≡ w.db
  unfolding share_beyond_integer
  beyond_shares_nothing i user w = elim (Option-cases (select_owned B w.db i user)) [
    | inl missing ↦ rw (missing, share_beyond_integer) refl
    | inr (x, found) ↦ rw (found, share_beyond_integer) refl
  ]

  beyond_reads_only :
      (short_id : String) (version : Option ℕ) (w : World B R)
      → (get_beyond_integer B R short_id version w).1.db ≡ w.db
  unfolding get_beyond_integer
  beyond_reads_only short_id version w = ground arith

  module _ (H : Hashes) where
    -- A route keeps of the database what its handler keeps.
    limited-keeps :
        {A : Type 0} (P : B.Db → Type 0) (q : Request) (capacity refill_rate : Option ℕ)
        (user : Option User) (status : ℕ) (handler : World B R → Result A × World B R)
        (state : State H B R settings)
        → P state.1.db
        → P (handler state.1).1.db
        → P (limited H B R settings q capacity refill_rate user status handler state).1.1.db
    unfolding limited rate_limit
    limited-keeps P q capacity refill_rate user status handler (s, w) p kept =
        elim (Result-cases
          (rate_limiter H settings q.clock (caller (user_id user) q.host)
            (some (unless_none capacity settings.capacity))
            (some (unless_none refill_rate settings.refill_rate)) s).0) [
              | inl (e, refused) ↦ rw (refused, limited, rate_limit) p
              | inr (_, granted) ↦ rw (granted, limited, rate_limit) kept
            ]

    -- Where the rows satisfy the CHECK constraints of the table, a short id of 8 characters and a title of
    -- at most 1000, they do so after every request, whatever its body is, and with every draw of
    -- `generate_short_id`.
    pub requests_keep_checks :
        (state : State H B R settings)
        → AllFit B state.1.db
        → ((q : Request) (body : CreateBody) (user : User) (uuid : String) (now : ℕ) (i j : String)
              (choice choice' : ℕ → Char)
            → AllFit B
                (post_snippet H B R settings q body user uuid now
                  (draw_with i choice)
                  (draw_with j choice')
                  state).1.1.db)
          × ((q : Request) (i : String) (body : UpdateBody) (user : User)
              → AllFit B (put_snippet H B R settings q i body user state).1.1.db)
          × ((q : Request) (i : String) (version : Option ℕ) (body : OutBody) (user : User)
                (now : ℕ)
              → AllFit B (post_share H B R settings q i version body user now state).1.1.db)
          × ((q : Request) (i : String) (user : User) (uuid : String) (now : ℕ)
              → AllFit B (delete H B R settings q i user uuid now state).1.1.db)
          × ((q : Request) (short_id : String) (version : Option ℕ) (user : Option User) (now : ℕ)
              → AllFit B (view_snippet_out H B R settings q short_id version user now state).1.1.db)
    unfolding post_snippet put_snippet post_share create update share delete view_snippet_out
    requests_keep_checks state fit = (
      λ q body user uuid now i j choice choice'. elim (Option-cases (parse_create body)) [
        | inl bad ↦ rw bad fit
        | inr (payload, parsed) ↦ rw parsed (
            limited-keeps (AllFit B) q none none (some user) 201
              (λ w.
                create_snippet B R settings uuid now (draw_with i choice) (draw_with j choice')
                  payload user w)
              state fit (create-AllFit uuid now i j choice choice' body user state.1 parsed fit))
      ],
      λ q i body user. elim (Option-cases (parse_update body)) [
        | inl bad ↦ rw bad fit
        | inr (payload, parsed) ↦ rw parsed (
            limited-keeps (AllFit B) q none none (some user) 200
              (λ w. update_snippet B R settings i (model_dump payload) user w) state fit
              (update-AllFit i body user state.1 parsed fit))
      ],
      λ q i version body user now. elim (Option-cases (parse_out body)) [
        | inl bad ↦ rw bad fit
        | inr (payload, parsed) ↦ rw parsed (
            limited-keeps (AllFit B) q none none (some user) 201
              (λ w.
                if is_integer version
                then snippet_out_url B R settings now i version payload user w
                else share_beyond_integer B R i user w)
              state fit
              (elim (Bool-cases (is_integer version)) [
                | inl held ↦ rw held (share-AllFit now i version payload user state.1 fit)
                | inr beyond ↦ rw beyond (rw (beyond_shares_nothing i user state.1) fit)
              ]))
      ],
      λ q i user uuid now.
          limited-keeps (AllFit B) q none none (some user) 204
            (λ w. delete_snippet B R settings uuid now i user w) state fit
            (delete-AllFit uuid now i user state.1 fit),
      λ q short_id version user now.
          limited-keeps (AllFit B) q (some 5) (some 1) user 200
            (λ w.
              if is_integer version
              then get_snippet_cached B R settings short_id version user now w
              else get_beyond_integer B R short_id version w)
            state fit
            (elim (Bool-cases (is_integer version)) [
              | inl held ↦
                  rw held (rw (read_keeps_db B R settings short_id version user now state.1) fit)
              | inr beyond ↦ rw beyond (rw (beyond_reads_only short_id version state.1) fit)
            ]),
    )
