-- ===== src/Prelude/Text.antt =====
-- Keys made of texts, and Python's `str` of a number.
use text.Mathlib.TextLemmas.{append_cancel_left}
use text.Mathlib.TextEquality.{eq_iff}
use Prim.Native.Nat.{◌/◌, ◌%◌}
use text.Mathlib.Text.{find?}
use swiftpaste.Prelude.{
  Bool, true, false, none, some, ℕ, zero, suc, String, ◌≡◌, refl, ap, str_eq, str_append, ◌==◌,
  if◌then◌else◌, Bool-cases, inl, inr,
}

-- Two keys with the same prefix are compared by what follows it.
pub str_eq-str_append : (p a b : String) → str_eq (str_append p a) (str_append p b) ≡ str_eq a b
str_eq-str_append p a b = elim (Bool-cases (str_eq a b)) [
  | inl same ↦
      rw same
        ((eq_iff (str_append p a) (str_append p b)).1 (ap (str_append p) ((eq_iff a b).0 same)))
  | inr differ ↦ elim (Bool-cases (str_eq (str_append p a) (str_append p b))) [
    | inl same ↦ cc (
        (eq_iff a b).1
          (append_cancel_left p a b ((eq_iff (str_append p a) (str_append p b)).0 same)))
    | inr differ' ↦ cc
  ]
]

abbrev digit : ℕ → String
digit d =
    if d == 0
    then "0"
    else if d == 1
    then "1"
    else if d == 2
    then "2"
    else if d == 3
    then "3"
    else if d == 4
    then "4"
    else if d == 5
    then "5"
    else if d == 6
    then "6"
    else if d == 7
    then "7"
    else if d == 8
    then "8"
    else "9"

-- The digits of a number below `10 ^ rounds`, put before `rest`.
decimal_from : ℕ → ℕ → String → String
decimal_from zero n rest = rest
decimal_from (suc rounds) n rest =
    let more = decimal_from rounds (n / 10) (str_append (digit (n % 10)) rest) in
    if n / 10 == 0 then str_append (digit (n % 10)) rest else more

-- `str(n)`: a number has at most as many digits as its successor counts.
unfoldable pub decimal : ℕ → String
unfolding decimal_from
decimal n = decimal_from (suc n) n ""

decimal_runs : decimal 1205 ≡ "1205"
unfolding decimal
decimal_runs = refl

-- `sub in s`
abbrev pub contains : String → String → Bool
contains s sub = elim (find? s sub) [ none ↦ false | some _ ↦ true ]

contains_runs : contains "duplicate key value violates ix_snippets_short_id" "short_id" ≡ true
contains_runs = refl
