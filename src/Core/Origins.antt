-- ===== src/Core/Origins.antt =====
-- `parse_allowed_origins` of app/core/config.py.
use Prim.Native.Char.{Char, code}
use text.Mathlib.TextLemmas.{cons-append, nil-append}
use swiftpaste.Prelude.{
  ℕ, String, ◌≡◌, refl, ◌∙◌, ap, Bool, false, ◌&&◌, ◌||◌, List, [], ◌∷◌, str_eq, str_append, ◌==◌,
  if◌then◌else◌,
}
use swiftpaste.Prelude.Split.{Lacks}

-- The value before its validation: a list, None, or any other by its text.
pub data RawOrigins : Type 0 where
  listed : List String → RawOrigins
  null : RawOrigins
  other_value : String → RawOrigins

-- `lstrip` and `rstrip` of the characters for which `p` holds.
unfoldable pub lstrip : (ℕ → Bool) → String → String
lstrip p String.[] = String.[]
lstrip p (String.◌∷◌ c s) = let rest = lstrip p s in if p (code c) then rest else String.◌∷◌ c s

unfoldable pub rstrip : (ℕ → Bool) → String → String
rstrip p String.[] = String.[]
rstrip p (String.◌∷◌ c s) =
    let rest = rstrip p s in if p (code c) && str_eq rest "" then String.[] else String.◌∷◌ c rest

unfoldable pub strip : (ℕ → Bool) → String → String
unfolding lstrip rstrip
strip p s = rstrip p (lstrip p s)

-- `startswith` and `endswith` of a character.
abbrev pub begins_with : ℕ → String → Bool
begins_with n String.[] = false
begins_with n (String.◌∷◌ c s) = code c == n

unfoldable pub ends_with : ℕ → String → Bool
ends_with n String.[] = false
ends_with n (String.◌∷◌ c s) = let rest = ends_with n s in if str_eq s "" then code c == n else rest

-- `s[1:-1]`
abbrev pub tail : String → String
tail String.[] = String.[]
tail (String.◌∷◌ c s) = s

unfoldable pub without_last : String → String
without_last String.[] = String.[]
without_last (String.◌∷◌ c s) =
    let rest = without_last s in if str_eq s "" then String.[] else String.◌∷◌ c rest

abbrev pub onto_first : Char → List String → List String
onto_first c [] = []
onto_first c (part ∷ parts) = String.◌∷◌ c part ∷ parts

-- `s.split(",")`
unfoldable pub split_commas : String → List String
split_commas String.[] = "" ∷ []
split_commas (String.◌∷◌ c s) =
    let parts = split_commas s in if code c == b',' then "" ∷ parts else onto_first c parts

-- `is_space` are the characters that `str.strip` takes away.
module _ (is_space : ℕ → Bool) where
  -- The comprehension.
  unfoldable pub items : List String → List String
  unfolding strip
  items [] = []
  items (x ∷ xs) =
      let rest = items xs in
      if str_eq (strip is_space x) ""
      then rest
      else strip (λ n. n == b'"') (strip (λ n. n == b'\'') (strip is_space x)) ∷ rest

  abbrev pub is_wildcard : String → Bool
  is_wildcard s = str_eq s "*" || str_eq s "[*]" || str_eq s "['*']" || str_eq s "[\"*\"]"

  abbrev pub is_bracketed : String → Bool
  is_bracketed s = begins_with b'[' s && ends_with b']' s

  unfoldable pub parse_allowed_origins : RawOrigins → List String
  unfolding items strip ends_with without_last split_commas
  parse_allowed_origins (listed v) = v
  parse_allowed_origins null = []
  parse_allowed_origins (other_value v) =
      let s = strip is_space v in
      let inner = strip is_space (without_last (tail s)) in
      if is_wildcard s then "*" ∷ [] else items (split_commas (if is_bracketed s then inner else s))

abbrev pub joined : String → List String → String
joined o [] = o
joined o (next ∷ os) = str_append o (String.◌∷◌ "," (joined next os))

split_commas-Lacks : (o : String) → Lacks b',' o → split_commas o ≡ o ∷ []
unfolding split_commas
split_commas-Lacks String.[] _ = refl
split_commas-Lacks (String.◌∷◌ c s) (differs, without) =
    rw (split_commas, differs) (rw (split_commas-Lacks s without) refl)

split_commas-append :
    (o rest : String)
    → Lacks b',' o
    → split_commas (str_append o (String.◌∷◌ "," rest)) ≡ o ∷ split_commas rest
unfolding split_commas
split_commas-append String.[] rest _ = rw (nil-append, split_commas) refl
split_commas-append (String.◌∷◌ c s) rest (differs, without) =
    rw (cons-append, split_commas, differs) (rw (split_commas-append s rest without) refl)

module _ (is_space : ℕ → Bool) where
  -- An origin that no strip changes.
  pub record IsPlain (o : String) : Type 0 where
    pub spaces : strip is_space o ≡ o
    pub single : strip (λ n. n == b'\'') o ≡ o
    pub double : strip (λ n. n == b'"') o ≡ o
    pub is_not_empty : str_eq o "" ≡ false
    pub commas : Lacks b',' o

  abbrev pub AllPlain : List String → Type 0
  AllPlain [] = Unit
  AllPlain (o ∷ os) = IsPlain o × AllPlain os

  items-plain : (os : List String) → AllPlain os → items is_space os ≡ os
  unfolding items
  items-plain [] _ = refl
  items-plain (o ∷ os) (plain, rest) =
      rw (items, plain.spaces, plain.is_not_empty)
        (rw (plain.single, plain.double, items-plain os rest) refl)

  split_commas-joined :
      (o : String) (os : List String) → AllPlain (o ∷ os) → split_commas (joined o os) ≡ o ∷ os
  split_commas-joined o [] (plain, _) = split_commas-Lacks o plain.commas
  split_commas-joined o (next ∷ os) (plain, rest) =
      split_commas-append o (joined next os) plain.commas
      ∙ ap (λ l. o ∷ l) (split_commas-joined next os rest)

  -- Origins that no strip changes and that hold no comma, joined by commas, are read back, unless all of it
  -- is stripped of something, is a wildcard or stands in brackets.
  pub parse_allowed_origins-joined :
      (o : String) (os : List String)
      → AllPlain (o ∷ os)
      → strip is_space (joined o os) ≡ joined o os
      → is_wildcard is_space (joined o os) ≡ false
      → is_bracketed is_space (joined o os) ≡ false
      → parse_allowed_origins is_space (other_value (joined o os)) ≡ o ∷ os
  unfolding parse_allowed_origins
  parse_allowed_origins-joined o os plain stripped no_wildcard no_brackets =
      rw (parse_allowed_origins, stripped, no_wildcard)
        (rw no_brackets
          (ap (items is_space) (split_commas-joined o os plain) ∙ items-plain (o ∷ os) plain))
