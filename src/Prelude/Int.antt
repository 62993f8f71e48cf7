-- ===== src/Prelude/Int.antt =====
-- Signed integers over the native numbers, under the library's names (its ℤ stands on the unary ℕ).
-- Sums and orders go through the two parts of an integer, which are numbers that `omega` reads.
use swiftpaste.Prelude.{
  ℕ, zero, suc, ◌+◌, ◌-◌, ◌*◌, ◌≤◌, ◌≡◌, ap, Bool, arith, ltb, leb, if◌then◌else◌,
}

-- `negsuc n` is -(n + 1).
pub data ℤ : Type 0 where
  pos : ℕ → ℤ
  negsuc : ℕ → ℤ

abbrev pub pos_part : ℤ → ℕ
pos_part (pos n) = n
pos_part (negsuc n) = 0

abbrev pub neg_part : ℤ → ℕ
neg_part (pos n) = 0
neg_part (negsuc n) = suc n

-- a - b, as an integer.
abbrev pub sub_ℕ : ℕ → ℕ → ℤ
sub_ℕ a b = if leb b a then pos (a - b) else negsuc (b - a - 1)

infixl 65 ◌+ℤ◌ ◌-ℤ◌
infixl 70 ◌*ℤ◌
infix 50 ◌≤ℤ◌
unfoldable pub ◌+ℤ◌ : ℤ → ℤ → ℤ
a +ℤ b = sub_ℕ (pos_part a + pos_part b) (neg_part a + neg_part b)

unfoldable pub ◌-ℤ◌ : ℤ → ℤ → ℤ
a -ℤ b = sub_ℕ (pos_part a + neg_part b) (neg_part a + pos_part b)

unfoldable pub ◌*ℤ◌ : ℤ → ℤ → ℤ
a *ℤ b =
    sub_ℕ (pos_part a * pos_part b + neg_part a * neg_part b)
      (pos_part a * neg_part b + neg_part a * pos_part b)

abbrev pub ◌≤ℤ◌ : ℤ → ℤ → Type 0
a ≤ℤ b = pos_part a + neg_part b ≤ pos_part b + neg_part a

abbrev pub ltb_ℤ : ℤ → ℤ → Bool
ltb_ℤ a b = ltb (pos_part a + neg_part b) (pos_part b + neg_part a)

-- One lemma for each operation lets `omega` work with the operations shut, at any depth.
pub +ℤ_parts :
    (a b : ℤ)
    → pos_part (a +ℤ b) + neg_part a + neg_part b ≡ neg_part (a +ℤ b) + pos_part a + pos_part b
unfolding ◌+ℤ◌
+ℤ_parts a b = ground arith

pub -ℤ_parts :
    (a b : ℤ)
    → pos_part (a -ℤ b) + neg_part a + pos_part b ≡ neg_part (a -ℤ b) + pos_part a + neg_part b
unfolding ◌-ℤ◌
-ℤ_parts a b = ground arith

pub eq_of_parts : (a b : ℤ) → pos_part a + neg_part b ≡ pos_part b + neg_part a → a ≡ b
eq_of_parts a b h = ground arith

pub ruleset int_laws = (arith, +ℤ_parts, -ℤ_parts, eq_of_parts)

-- Products with a number that is not negative.
pub *ℤ_parts :
    (x : ℤ) (r : ℕ)
    → pos_part (x *ℤ pos r) + neg_part x * r ≡ neg_part (x *ℤ pos r) + pos_part x * r
unfolding ◌*ℤ◌
*ℤ_parts x r = ground arith

scaled : (a b c d e f r : ℕ) → a + b + c ≡ d + e + f → a * r + b * r + c * r ≡ d * r + e * r + f * r
scaled a b c d e f r h = omega (arith, ap (λ (t : ℕ). t * r) h)

-- A span of time times a rate splits at any point between.
pub *ℤ_split : (t a b : ℤ) (r : ℕ) → ((t -ℤ b) *ℤ pos r) +ℤ ((b -ℤ a) *ℤ pos r) ≤ℤ (t -ℤ a) *ℤ pos r
*ℤ_split t a b r = omega (
  arith,
  +ℤ_parts ((t -ℤ b) *ℤ pos r) ((b -ℤ a) *ℤ pos r),
  *ℤ_parts (t -ℤ a) r,
  *ℤ_parts (t -ℤ b) r,
  *ℤ_parts (b -ℤ a) r,
  scaled _ _ _ _ _ _ r (-ℤ_parts t a),
  scaled _ _ _ _ _ _ r (-ℤ_parts t b),
  scaled _ _ _ _ _ _ r (-ℤ_parts b a),
)

pub *ℤ_nonneg : (x : ℤ) (r : ℕ) → pos 0 ≤ℤ x → pos 0 ≤ℤ x *ℤ pos r
*ℤ_nonneg (pos n) r h = omega (arith, *ℤ_parts (pos n) r)
*ℤ_nonneg (negsuc n) r h = absurd (omega arith)

pub *ℤ_ge : (x : ℤ) (r : ℕ) → pos 1 ≤ℤ pos r → pos 0 ≤ℤ x → x ≤ℤ x *ℤ pos r
*ℤ_ge (pos n) zero p h = absurd (omega arith)
*ℤ_ge (pos n) (suc r) p h = grind (arith, *ℤ_parts (pos n) (suc r))
*ℤ_ge (negsuc n) r p h = absurd (omega arith)
