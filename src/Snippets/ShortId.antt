-- ===== src/Snippets/ShortId.antt =====
-- `generate_short_id` of app/utils/dep.py. `choice` gives what `secrets.choice` draws, one after the other.
use Prim.Native.Char.{Char, code}
use Prim.Native.String
use text.Mathlib.TextLemmas.{length-cons, length-nil}
use swiftpaste.Prelude.{
  Bool, true, false, ◌||◌, ℕ, zero, suc, String, ◌≡◌, refl, ◌∙◌, ap, arith, ◌==◌,
}
use swiftpaste.Prelude.Split.{Lacks, lacks, lacks-Lacks}

-- `string.ascii_letters + string.digits`
abbrev pub base62 : String
base62 = "abcdefghijklmnopqrstuvwxyzABCDEFGHIJKLMNOPQRSTUVWXYZ0123456789"

abbrev pub is_in : ℕ → String → Bool
is_in n String.[] = false
is_in n (String.◌∷◌ c s) = code c == n || is_in n s

unfoldable pub join_from : (ℕ → Char) → ℕ → ℕ → String
join_from choice k zero = String.[]
join_from choice k (suc rounds) = String.◌∷◌ (choice k) (join_from choice (suc k) rounds)

unfoldable pub generate_short_id : (ℕ → Char) → ℕ → String
unfolding join_from
generate_short_id choice length = join_from choice 0 length

-- What `secrets.choice(_BASE62)` promises.
abbrev pub IsDrawnFrom : String → (ℕ → Char) → Type 0
IsDrawnFrom alphabet choice = (k : ℕ) → is_in (code (choice k)) alphabet ≡ true

-- A character of a text that lacks the separator is not the separator.
is_in-Lacks : (sep n : ℕ) (s : String) → Lacks sep s → is_in n s ≡ true → (n == sep) ≡ false
is_in-Lacks sep n String.[] _ e = cc
is_in-Lacks sep n (String.◌∷◌ c s) (differs, lacks) e = ground (arith, is_in-Lacks sep n s lacks)

base62-Lacks : Lacks b':' base62
unfolding lacks
base62-Lacks = lacks-Lacks b':' base62 refl

count-join_from : (choice : ℕ → Char) (k n : ℕ) → String.count (join_from choice k n) ≡ n
unfolding join_from
count-join_from choice k zero = length-nil
count-join_from choice k (suc n) = length-cons _ _ ∙ ap suc (count-join_from choice (suc k) n)

join_from-Lacks :
    (choice : ℕ → Char) → IsDrawnFrom base62 choice → (k n : ℕ) → Lacks b':' (join_from choice k n)
unfolding join_from
join_from-Lacks choice drawn k zero = tt
join_from-Lacks choice drawn k (suc n) = (
  is_in-Lacks b':' (code (choice k)) base62 base62-Lacks (drawn k),
  join_from-Lacks choice drawn (suc k) n,
)

pub count-generate_short_id :
    (choice : ℕ → Char) (n : ℕ) → String.count (generate_short_id choice n) ≡ n
unfolding generate_short_id
count-generate_short_id choice n = count-join_from choice 0 n

pub generate_short_id-Lacks :
    (choice : ℕ → Char) (n : ℕ)
    → IsDrawnFrom base62 choice
    → Lacks b':' (generate_short_id choice n)
unfolding generate_short_id
generate_short_id-Lacks choice n drawn = join_from-Lacks choice drawn 0 n
