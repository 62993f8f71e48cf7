-- ===== src/Prelude/Split.antt =====
-- Python's `str.split` on a character, and texts that lack a character.
use Prim.Native.Char.{Char, code}
use text.Mathlib.TextLemmas.{cons-append, nil-append, append_assoc}
use swiftpaste.Prelude.{
  Bool, true, false, not, ◌&&◌, Option, none, some, ℕ, String, ◌≡◌, refl, ◌∙◌, ap, str_append, ◌==◌,
  if◌then◌else◌, Bool-cases, inl, inr,
}

-- What stands before the first `sep` and what stands behind it.
abbrev pub onto : Char → Option (String × String) → Option (String × String)
onto c none = none
onto c (some (a, b)) = some (String.◌∷◌ c a, b)

unfoldable pub cut_at : ℕ → String → Option (String × String)
cut_at sep String.[] = none
cut_at sep (String.◌∷◌ c s) =
    let rest = onto c (cut_at sep s) in if code c == sep then some (String.[], s) else rest

abbrev pub Lacks : ℕ → String → Type 0
Lacks sep String.[] = Unit
Lacks sep (String.◌∷◌ c s) = ((code c == sep) ≡ false) × Lacks sep s

-- The test for a separator, which decides.
unfoldable pub lacks : ℕ → String → Bool
lacks sep String.[] = true
lacks sep (String.◌∷◌ c s) = not (code c == sep) && lacks sep s

pub lacks-Lacks : (sep : ℕ) (s : String) → lacks sep s ≡ true → Lacks sep s
unfolding lacks
lacks-Lacks sep String.[] _ = tt
lacks-Lacks sep (String.◌∷◌ c s) e = elim (Bool-cases (code c == sep)) [
  | inl same ↦ cc
  | inr differs ↦ (differs, lacks-Lacks sep s (rw differs at e))
]

pub cut_at-append :
    (sep : ℕ) (mark : Char) (a b : String)
    → (code mark == sep) ≡ true
    → Lacks sep a
    → cut_at sep (str_append a (String.◌∷◌ mark b)) ≡ some (a, b)
unfolding cut_at
cut_at-append sep mark String.[] b is _ = rw (nil-append, is, cut_at) refl
cut_at-append sep mark (String.◌∷◌ c s) b is (differs, lacks) =
    rw (cons-append, cut_at) (rw (differs, cut_at-append sep mark s b is lacks) refl)

pub char-append : (c : Char) (x : String) → str_append (String.◌∷◌ c String.[]) x ≡ String.◌∷◌ c x
char-append c x = cons-append c String.[] x ∙ ap (String.◌∷◌ c) (nil-append x)

-- A constant text in front of a separator is cut off.
pub cut_at-prefix :
    (sep : ℕ) (mark : Char) (a b whole : String)
    → whole ≡ str_append a (String.◌∷◌ mark String.[])
    → (code mark == sep) ≡ true
    → Lacks sep a
    → cut_at sep (str_append whole b) ≡ some (a, b)
cut_at-prefix sep mark a b whole e is lacks =
    ap (λ w. cut_at sep (str_append w b)) e
    ∙ ap (cut_at sep)
        (append_assoc a (String.◌∷◌ mark String.[]) b ∙ ap (str_append a) (char-append mark b))
    ∙ cut_at-append sep mark a b is lacks

pub cut_at-Lacks : (sep : ℕ) (s : String) → Lacks sep s → cut_at sep s ≡ none
unfolding cut_at
cut_at-Lacks sep String.[] _ = refl
cut_at-Lacks sep (String.◌∷◌ c s) (differs, lacks) = rw (differs, cut_at-Lacks sep s lacks) refl

-- `s.split(":", 2)` unpacked into three names; `none` is the ValueError of fewer parts.
unfoldable pub split_three : String → Option (String × String × String)
split_three s = elim (cut_at b':' s) [
  | none ↦ none
  | some (a, rest) ↦ elim (cut_at b':' rest) [ none ↦ none | some (b, c) ↦ some (a, b, c) ]
]

split_three_runs : split_three "snippet:abc:1:2" ≡ some ("snippet", "abc", "1:2")
unfolding split_three cut_at
split_three_runs = refl

-- `s.split(":")[-1]`: what stands behind the last colon, or all of it.
unfoldable pub last_part : String → String
last_part String.[] = String.[]
last_part (String.◌∷◌ c s) = elim (cut_at b':' (String.◌∷◌ c s)) [
  | none ↦ String.◌∷◌ c s
  | some _ ↦ last_part s
]

-- With a separator in it, a text is cut somewhere.
cut_somewhere :
    (a b : String)
    → (p : String × String) × (cut_at b':' (str_append a (String.◌∷◌ ":" b)) ≡ some p)
unfolding cut_at
cut_somewhere String.[] b = (("", b), rw (nil-append, cut_at) refl)
cut_somewhere (String.◌∷◌ c a) b =
    let (p, cut) = cut_somewhere a b in
    elim (Bool-cases (code c == b':')) [
      | inl sep ↦ (("", str_append a (String.◌∷◌ ":" b)), rw (cons-append, cut_at) (rw sep refl))
      | inr other ↦ ((String.◌∷◌ c p.0, p.1), rw (cons-append, cut_at) (rw (other, cut) refl))
    ]

last_part-Lacks : (b : String) → Lacks b':' b → last_part b ≡ b
unfolding last_part
last_part-Lacks String.[] _ = refl
last_part-Lacks (String.◌∷◌ c s) without =
    rw (last_part, cut_at-Lacks b':' (String.◌∷◌ c s) without) refl

-- The last part stands behind the last colon.
pub last_part-append :
    (a b : String) → Lacks b':' b → last_part (str_append a (String.◌∷◌ ":" b)) ≡ b
unfolding last_part cut_at
last_part-append String.[] b without = rw (nil-append, last_part) (last_part-Lacks b without)
last_part-append (String.◌∷◌ c a) b without =
    let (p, cut) = cut_somewhere (String.◌∷◌ c a) b in
    rw (cons-append, last_part) (rw (rw cons-append at cut) (last_part-append a b without))
