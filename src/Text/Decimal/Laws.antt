-- ===== src/Text/Decimal/Laws.antt =====
-- A printed number can be read back, whatever follows it.
use fidrouter.Base.{
  ℕ, zero, suc, ◌+◌, ◌/◌, ◌%◌, ◌<◌, ℤ, pos, negsuc, Text, ◌≡◌, refl, ap, ◌∙◌, true, false, [], ◌∷◌,
  ◌++◌, arith, ltb, ◌==◌, if◌then◌else◌, Bool-cases, inl, inr, leb, ◌&&◌,
}
use fidrouter.Text.Decimal.{digits_onto, show_nat, show_int, is_digit, read_digits}

digits_onto-append : (f n : ℕ) (s t : Text) → digits_onto f n s ++ t ≡ digits_onto f n (s ++ t)
unfolding digits_onto
digits_onto-append zero n s t = refl
digits_onto-append (suc f) n s t =
    ground (arith, digits_onto-append f (n / 10) ((b'0' + n % 10) ∷ s) t)

read_digits-digits_onto :
    (f n : ℕ) (rest : Text) → n < f → read_digits 0 (digits_onto f n rest) ≡ read_digits n rest
unfolding digits_onto read_digits is_digit
read_digits-digits_onto zero n rest h = elim h [ ]
read_digits-digits_onto (suc f) n rest h = elim (Bool-cases (ltb n 10)) [
  | inl small ↦ rw small (ground arith)
  | inr big ↦ rw big (read_digits-digits_onto f (n / 10) _ (ground arith) ∙ ground arith)
]

digits_onto_head :
    (f n : ℕ) (rest : Text)
    → n < f
    → (c : ℕ) × (s : Text) × (digits_onto f n rest ≡ c ∷ s) × (is_digit c ≡ true)
unfolding digits_onto is_digit
digits_onto_head zero n rest h = elim h [ ]
digits_onto_head (suc f) n rest h = elim (Bool-cases (ltb n 10)) [
  | inl small ↦ (b'0' + n, rest, rw small, ground arith)
  | inr big ↦ rw big (digits_onto_head f (n / 10) ((b'0' + n % 10) ∷ rest) (ground arith))
]

-- The first digit of a number that is not zero is not zero.
digits_onto_first :
    (f n : ℕ) (rest : Text)
    → n < f
    → 0 < n
    → (c : ℕ) × (s : Text) × (digits_onto f n rest ≡ c ∷ s) × ((leb b'1' c && leb c b'9') ≡ true)
unfolding digits_onto
digits_onto_first zero n rest h pos_n = elim h [ ]
digits_onto_first (suc f) n rest h pos_n = elim (Bool-cases (ltb n 10)) [
  | inl small ↦ (b'0' + n, rest, rw small, ground arith)
  | inr big ↦
      rw big (digits_onto_first f (n / 10) ((b'0' + n % 10) ∷ rest) (ground arith) (ground arith))
]

pub show_nat_head :
    (n : ℕ) (rest : Text)
    → (c : ℕ) × (s : Text) × (show_nat (suc n) ++ rest ≡ c ∷ s)
      × ((leb b'1' c && leb c b'9') ≡ true)
unfolding show_nat
show_nat_head n rest =
    let (c, s, e, h) = digits_onto_first (suc (suc n)) (suc n) rest (omega arith) (omega arith) in
    (c, s, digits_onto-append (suc (suc n)) (suc n) [] rest ∙ e, h)

-- Reading goes on with what follows.
pub read_digits-show_nat_onto :
    (n : ℕ) (rest : Text) → read_digits 0 (show_nat n ++ rest) ≡ read_digits n rest
unfolding show_nat
read_digits-show_nat_onto n rest =
    ap (read_digits 0) (digits_onto-append (suc n) n [] rest)
    ∙ read_digits-digits_onto (suc n) n rest (omega arith)

-- Reading stops at the first character that is no digit.
pub read_digits-show_nat :
    (n c : ℕ) (rest : Text)
    → is_digit c ≡ false
    → read_digits 0 (show_nat n ++ c ∷ rest) ≡ (n, c ∷ rest)
unfolding read_digits
read_digits-show_nat n c rest h = read_digits-show_nat_onto n (c ∷ rest) ∙ rw h

-- A sign, and then digits.
read_signed : ℕ × Text → ℤ × Text
read_signed (zero, s) = (pos 0, s)
read_signed (suc n, s) = (negsuc n, s)

read_plain : ℕ × Text → ℤ × Text
read_plain (n, s) = (pos n, s)

pub read_int : Text → ℤ × Text
read_int [] = (pos 0, [])
read_int (c ∷ s) =
    if c == b'-' then read_signed (read_digits 0 s) else read_plain (read_digits 0 (c ∷ s))

read_int_digit :
    (s : Text) (c : ℕ) (t : Text)
    → s ≡ c ∷ t
    → is_digit c ≡ true
    → read_int s ≡ read_plain (read_digits 0 s)
unfolding read_int is_digit
read_int_digit s c t e d = rw e (ground arith)

pub read_int-show_int :
    (i : ℤ) (c : ℕ) (rest : Text)
    → is_digit c ≡ false
    → read_int (show_int i ++ c ∷ rest) ≡ (i, c ∷ rest)
unfolding show_int read_plain read_signed
read_int-show_int (pos n) c rest h =
    let (d, s, e, digit) = digits_onto_head (suc n) n (c ∷ rest) (omega arith) in
    read_int_digit (show_nat n ++ c ∷ rest) d s
      (unfold show_nat in (digits_onto-append (suc n) n [] (c ∷ rest) ∙ e)) digit
    ∙ rw (read_digits-show_nat n c rest h)
read_int-show_int (negsuc n) c rest h =
    unfold read_int in rw (read_digits-show_nat (suc n) c rest h)
