-- ===== src/Snippets/Creates.antt =====
-- What `create_snippet` leaves behind, on every path.
use swiftpaste.Prelude.{
  ℕ, String, ◌≡◌, refl, ◌⊎◌, ◌∙◌, ap, true, Option-cases, none, some, List, [], ◌∷◌, str_eq,
  str_append, ◌==◌, ◌&&◌, if◌then◌else◌, Bool-cases, inl, inr,
}
use swiftpaste.Prelude.Int.{pos}
use swiftpaste.Core.Config.{Settings}
use swiftpaste.Core.Errors.{Failure, Result, ok, err, app, database}
use swiftpaste.Jobs.Store.{JobStore, snippet_fields}
use swiftpaste.Jobs.Queue.{enqueue}
use swiftpaste.Models.{Snippet, User, SnippetCreate, SnippetResponse}
use swiftpaste.Snippets.Backend.{Backend, Inserted, inserted, refused}
use swiftpaste.Snippets.Common.{World, with_content}
use swiftpaste.Snippets.Create.{
  Draw, Attempt, committed, integrity_error, new_snippet, first_version, insert_rows,
  created_response, create_loop, create_snippet, is_short_id_error, short_id_generation_failed,
}

pub Attempt-cases :
    {Db : Type 0} (a : Attempt Db)
    → ((e : String) × (a ≡ integrity_error e)) ⊎ ((d : Db) × (a ≡ committed d))
Attempt-cases (integrity_error e) = inl (e, refl)
Attempt-cases (committed d) = inr (d, refl)

pub db-created_response :
    (B : Backend) (R : JobStore) (settings : Settings) (uuid : String) (now : ℕ)
    (payload : SnippetCreate) (x : Snippet) (w : World B R)
    → (created_response B R settings uuid now payload x w).1.db ≡ w.db
unfolding created_response
db-created_response B R settings uuid now payload x w = elim (Option-cases (R.raises w.jobs)) [
  | inl answers ↦ rw (answers, created_response) refl
  | inr (e, raises) ↦ rw (raises, created_response) refl
]

pub Inserted-cases :
    {Db : Type 0} (a : Inserted Db)
    → ((e : String) × (a ≡ refused e)) ⊎ ((d : Db) × (a ≡ inserted d))
Inserted-cases (refused e) = inl (e, refl)
Inserted-cases (inserted d) = inr (d, refl)

abbrev pub IsDrawn : Draw → List Draw → Type 0
IsDrawn draw [] = ⊥
IsDrawn draw (d ∷ draws) = (draw ≡ d) ⊎ IsDrawn draw draws

module _ (B : Backend) where
  open B use {Db, by_id, by_short_id, version_row}

  -- A snippet whose two rows have been committed over `d`.
  pub record IsNew (payload : SnippetCreate) (x : Snippet) (d d' : Db) : Type 0 where
    pub id_free : by_id d x.id ≡ none
    pub short_id_free : by_short_id d x.short_id ≡ none
    pub short_rows :
        (k : String) → by_short_id d' k ≡ (if str_eq x.short_id k then some x else by_short_id d k)
    pub versions :
        (j : String) (n : ℕ)
        → version_row d' j n
          ≡ (if str_eq x.id j && 1 == n then some (first_version payload x) else version_row d j n)
    pub rows : (j : String) → by_id d' j ≡ (if str_eq x.id j then some x else by_id d j)

  pub insert_rows-IsNew :
      (payload : SnippetCreate) (x : Snippet) (d : Db) {d' : Db}
      → insert_rows B payload x d ≡ committed d'
      → IsNew payload x d d'
  unfolding insert_rows
  insert_rows-IsNew payload x d {d'} e = elim (Inserted-cases (B.insert_snippet x d)) [
    | inl (t, no_) ↦ cc (rw (no_, insert_rows) at e)
    | inr (d₁, first) ↦ elim (Inserted-cases (B.insert_version (first_version payload x) d₁)) [
      | inl (t, no_) ↦ cc (rw (first, no_, insert_rows) at e)
      | inr (d₂, second) ↦
          let same : d₂ ≡ d' = committed_injective (rw (first, second, insert_rows) at e) in
          let second' = second ∙ ap inserted same in
          let fresh = B.insert_snippet-fresh x d first in
          record {
            id_free = fresh.0;
            short_id_free = fresh.1;
            short_rows = λ k.
                B.by_short_id-insert_version (first_version payload x) d₁ k second'
                ∙ B.by_short_id-insert_snippet x d k first;
            versions = λ j n.
                B.version_row-insert_version (first_version payload x) d₁ j n second'
                ∙ rw (B.version_row-insert_snippet x d j n first) refl;
            rows = λ j.
                B.by_id-insert_version (first_version payload x) d₁ j second'
                ∙ B.by_id-insert_snippet x d j first;
          }
    ]
  ]
    where
      committed_injective : {a b : Db} → committed a ≡ committed b → a ≡ b
      committed_injective e = cc

module _ (B : Backend) (R : JobStore) (settings : Settings) (uuid : String) (now : ℕ) where
  -- How a call ends whose snippet is committed: the index job raises and is not there, or the call returns
  -- the snippet and the job is in the queue.
  abbrev pub Announced :
      SnippetCreate → Draw → World B R → Result SnippetResponse × World B R → Type 0
  Announced payload draw w (result, w') =
      ((e : Failure) × (R.raises w.jobs ≡ some e) × (result ≡ err e) × (w'.jobs ≡ w.jobs))
      ⊎ ((r : SnippetResponse) × (R.raises w.jobs ≡ none)
          × (result ≡ ok r)
          × (r.latest_version ≡ 1)
          × (r.short_id ≡ draw.short_id)
          × (w'.jobs
              ≡ enqueue R settings uuid now "index_snippet"
                  (snippet_fields draw.id draw.short_id
                    (str_append payload.title (str_append " " payload.content)))
                  0 (pos 3) w.jobs))

  -- How a call ends: it raises and has changed nothing, or one of its draws has become a snippet.
  abbrev pub Created :
      SnippetCreate → User → List Draw → World B R → Result SnippetResponse × World B R → Type 0
  Created payload user draws w (result, w') =
      ((e : Failure) × (result ≡ err e) × (w' ≡ w))
      ⊎ ((draw : Draw) × IsDrawn draw draws
          × IsNew B payload (new_snippet payload user now draw) w.db w'.db
          × Announced payload draw w (result, w'))

  module _ (payload : SnippetCreate) (user : User) (draw : Draw) (draws : List Draw)
      (w : World B R) where
    loop_done :
        (d : B.Db)
        → insert_rows B payload (new_snippet payload user now draw) w.db ≡ committed d
        → create_loop B R settings uuid now payload user (draw ∷ draws) w
          ≡ created_response B R settings uuid now payload
              (new_snippet payload user now draw)
              (record w { db = d })
    unfolding create_loop
    loop_done d done = rw (done, create_loop)

    loop_failed :
        (t : String)
        → insert_rows B payload (new_snippet payload user now draw) w.db ≡ integrity_error t
        → create_loop B R settings uuid now payload user (draw ∷ draws) w ≡ (
            if is_short_id_error t
            then create_loop B R settings uuid now payload user draws w
            else (err database, w))
    unfolding create_loop
    loop_failed t failed = rw (failed, create_loop)

    later_draw :
        (p : Result SnippetResponse × World B R)
        → Created payload user draws w p
        → Created payload user (draw ∷ draws) w p
    later_draw p (inl raised) = inl raised
    later_draw p (inr (d, drawn, new_, announced)) = inr (d, inr drawn, new_, announced)

    response_announces :
        (d : B.Db)
        → IsNew B payload (new_snippet payload user now draw) w.db d
        → let x = new_snippet payload user now draw in
          let p = created_response B R settings uuid now payload x (record w { db = d }) in
          (e : Draw) × IsDrawn e (draw ∷ draws)
          × IsNew B payload (new_snippet payload user now e) w.db p.1.db
          × Announced payload e w p
    unfolding created_response
    response_announces d new_ =
        let x = new_snippet payload user now draw in
        let made = with_content x (first_version payload x) (B.author d user.id) payload.content in
        elim (Option-cases (R.raises w.jobs)) [
          | inl answers ↦
              rw (answers, created_response)
                (draw, inl refl, new_, inr (made, refl, refl, refl, refl, refl))
          | inr (e, raises) ↦
              rw (raises, created_response) (draw, inl refl, new_, inl (e, refl, refl, refl))
        ]

  create_loop-Created :
      (payload : SnippetCreate) (user : User) (draws : List Draw) (w : World B R)
      → Created payload user draws w (create_loop B R settings uuid now payload user draws w)
  create_loop-Created payload user [] w =
      unfold create_loop in inl (app short_id_generation_failed, refl, refl)
  create_loop-Created payload user (draw ∷ draws) w =
      let x = new_snippet payload user now draw in
      elim (Attempt-cases (insert_rows B payload x w.db)) [
        | inr (d, done) ↦ rw (loop_done payload user draw draws w d done) (
            inr (
              response_announces payload user draw draws w d
                (insert_rows-IsNew B payload x w.db done)))
        | inl (t, failed) ↦ elim (Bool-cases (is_short_id_error t)) [
          | inl taken ↦
              rw (loop_failed payload user draw draws w t failed, taken)
                (later_draw payload user draw draws w _ (create_loop-Created payload user draws w))
          | inr broken ↦
              rw (loop_failed payload user draw draws w t failed, broken)
                (inl (database, refl, refl))
        ]
      ]

  -- A call either raises and changes nothing, or one of its two draws, whose id and short id were both
  -- free, has been committed as a snippet: its row with the counter at 1 and its first version with the
  -- content and visibility asked for; every other row and version stays as it was. In the second case it
  -- returns, with one index job enqueued, if Redis takes the job; if Redis raises then the call raises that
  -- failure, with no job enqueued and the snippet there.
  pub create_is_atomic :
      (payload : SnippetCreate) (user : User) (first second : Draw) (w : World B R)
      → Created payload user
          (first ∷ second ∷ [])
          w
          (create_snippet B R settings uuid now first second payload user w)
  unfolding create_snippet
  create_is_atomic payload user first second w =
      create_loop-Created payload user (first ∷ second ∷ []) w

  -- Two draws that are both refused for their short id end in the error for that, with nothing changed.
  pub create_gives_up :
      (payload : SnippetCreate) (user : User) (first second : Draw) (w : World B R) {t u : String}
      → insert_rows B payload (new_snippet payload user now first) w.db ≡ integrity_error t
      → is_short_id_error t ≡ true
      → insert_rows B payload (new_snippet payload user now second) w.db ≡ integrity_error u
      → is_short_id_error u ≡ true
      → create_snippet B R settings uuid now first second payload user w
        ≡ (err (app short_id_generation_failed), w)
  unfolding create_snippet create_loop
  create_gives_up payload user first second w {t} {u} e taken e' taken' = rw (
    loop_failed payload user first (second ∷ []) w t e,
    taken,
    loop_failed payload user second [] w u e',
    taken',
  )
