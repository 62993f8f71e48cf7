-- ===== src/Views/Arrivals.antt =====
-- The views that a search counts, in the rows after a flush.
use mathlib.Core.Option
use text.Mathlib.TextLemmas.{append_assoc}
use text.Mathlib.TextPositions.{eq_refl}
use swiftpaste.Prelude.{
  ℕ, ◌+◌, String, ◌≡◌, refl, ◌∙◌, sym, ap, Bool, true, false, ◌||◌, Option, none, some, List, [],
  ◌∷◌, str_eq, str_append, if◌then◌else◌, arith, Bool-cases, inl, inr, eq_iff,
}
use swiftpaste.Prelude.Text.{str_eq-str_append}
use swiftpaste.Prelude.Split.{Lacks, char-append, last_part, last_part-append}
use swiftpaste.Core.Config.{Settings}
use swiftpaste.Core.Errors.{ok}
use swiftpaste.Jobs.Store.{JobStore}
use swiftpaste.Models.{User}
use swiftpaste.Snippets.Backend.{Backend}
use swiftpaste.Snippets.Consistent.{IsConsistent}
use swiftpaste.Search.{IndexStore, has}
use swiftpaste.Search.Results.{Params, Page, PageStore, Finder, Texts, search_snippets}
use swiftpaste.Search.Counts.{occurrences, views, search_counts_views}
use swiftpaste.Views.{ViewStore, views_key, is_distinct, flush_views_to_db}
use swiftpaste.Views.Gains.{viewed, or_zero, pending}
use swiftpaste.Views.Flush.{flush_accounts}

-- The key of an id without a colon, such as a short id.
abbrev pub IsViewKey : String → Type 0
IsViewKey k = (i : String) × (k ≡ views_key i) × Lacks b':' i

last_part-views_key : (i : String) → Lacks b':' i → last_part (views_key i) ≡ i
last_part-views_key i without =
    ap last_part
      (append_assoc "snippet:views" ":" i ∙ ap (str_append "snippet:views") (char-append ":" i))
    ∙ last_part-append "snippet:views" i without

end_true : (b : Bool) {c : Bool} → c ≡ true → (b || c) ≡ true
end_true true e = refl
end_true false e = e

module _ (V : ViewStore) (s : V.Store) (short_id : String) where
  abbrev own : List String → ℕ
  own keys = if has (views_key short_id) keys then or_zero (V.get (views_key short_id) s) else 0

  -- Of keys that are all of such ids, each once, only its own counter ends in a short id.
  pending-own :
      (keys : List String)
      → ((k : String) → has k keys ≡ true → IsViewKey k)
      → is_distinct keys ≡ true
      → pending V keys s short_id ≡ own keys
  unfolding pending
  pending-own [] well apart = refl
  pending-own (key ∷ keys) well apart =
      let (i, is, without) = well key (rw (eq_refl key) refl) in
      let last : last_part key ≡ i = ap last_part is ∙ last_part-views_key i without in
      let rest =
        pending-own keys (λ k h. well k (end_true (str_eq key k) h)) (ground (arith, apart)) in
      elim (Bool-cases (str_eq i short_id)) [
        | inl same ↦
            let at : key ≡ views_key short_id = is ∙ ap views_key ((eq_iff i short_id).0 same) in
            let fresh : has key keys ≡ false = ground (arith, apart) in
            let none_left : pending V keys s short_id ≡ 0 =
              rest
              ∙ ap (λ b. if b then or_zero (V.get (views_key short_id) s) else 0)
                  (ap (λ k. has k keys) (sym at) ∙ fresh) in
            rw (last, same, none_left, at, eq_refl (views_key short_id), pending) (omega arith)
        | inr other ↦
            let differ : str_eq key (views_key short_id) ≡ false =
              ap (λ k. str_eq k (views_key short_id)) is
              ∙ str_eq-str_append "snippet:views:" i short_id
              ∙ other in
            rw (last, other, differ, pending) rest
      ]

  own_lem : own (V.keys s) ≡ views V s short_id
  own_lem = rw (V.has-keys short_id s) (go (V.get (views_key short_id) s))
    where
      go :
          (o : Option ℕ)
          → (if elim o [ none ↦ false | some _ ↦ true ] then or_zero o else 0) ≡ or_zero o
      go none = refl
      go (some n) = refl

module _ (V : ViewStore) (I : IndexStore) (B : Backend) (P : PageStore) (F : Finder I B)
    (texts : Texts) (R : JobStore) where
  -- In consistent tables and counters of ids without a colon: a search that answers, and then a flush, add to
  -- the row of a live snippet the views that its counter held before the search, and one for each time that
  -- the answer shows the snippet.
  pub searched_views_arrive :
      (settings : Settings) (query : String) (user : Option User) (params : Params) (d : B.Db)
      (index : I.Store) (pages : P.Store) (s : V.Store) (id : String) (now : ℕ) (late : List String)
      (jobs : R.Store) (short_id : String) {page : Page}
      → IsConsistent B d
      → (search_snippets V I B P F texts query user params d index (pages, s)).0 ≡ ok page
      → ((k : String)
          → has k
              (V.keys (search_snippets V I B P F texts query user params d index (pages, s)).1.1)
            ≡ true
          → IsViewKey k)
      → let (_, (_, s')) = search_snippets V I B P F texts query user params d index (pages, s) in
        let (d', _, _) = flush_views_to_db V B R settings id now late (d, s', jobs) in
        B.by_short_id d' short_id
        ≡ Option.map
            (viewed (views V s short_id + occurrences short_id page.items))
            (B.by_short_id d short_id)
  searched_views_arrive settings query user params d index pages s id now late jobs short_id {page}
        h answered well =
      let (_, (_, s')) = search_snippets V I B P F texts query user params d index (pages, s) in
      let counted : views V s' short_id ≡ views V s short_id + occurrences short_id page.items =
        rw answered at
          (search_counts_views V I B P F texts query user params d index pages s short_id) in
      (flush_accounts V B R settings id now late d s' jobs h).0 short_id
      ∙ ap (λ n. Option.map (viewed n) (B.by_short_id d short_id))
          (pending-own V s' short_id (V.keys s') well (V.keys-is_distinct s')
            ∙ own_lem V s' short_id
            ∙ counted)
