-- ===== src/Json/Loads/Numbers.antt =====
-- What `str` writes of an integer, the scanner reads back.
use fidrouter.Base.{
  ℕ, zero, suc, ◌+◌, ◌*◌, ◌-◌, ℤ, pos, negsuc, Text, Bool, true, false, ◌||◌, ◌&&◌, none, List, [],
  ◌∷◌, ◌++◌, ok, ◌≡◌, refl, ap, ◌∙◌, sym, subst, leb, ◌==◌, arith, Bool-cases, inl, inr,
}
use fidrouter.Text.Decimal.{show_nat, show_int, is_digit, read_digits}
use fidrouter.Text.Decimal.Laws.{read_digits-show_nat_onto, show_nat_head}
use fidrouter.Json.{Json, num, Floats}
use fidrouter.Json.Scan.{
  Frame, Mode, value_start, number, after_value, Number, minus, whole, lone_zero, signed_int,
  next_number, number_value, start_value, is_blank, step_number, step, finish,
}
use fidrouter.Json.Loads.{run}

-- A text at which a number ends.
abbrev pub Ends : Text → Type 0
Ends [] = Unit {0}
Ends (c ∷ s) = (is_digit c || c == b'.' || c == b'e' || c == b'E') ≡ false

read_digits-Ends : (n : ℕ) (rest : Text) → Ends rest → read_digits n rest ≡ (n, rest)
unfolding read_digits
read_digits-Ends n [] h = refl
read_digits-Ends n (c ∷ s) h = ground (arith, h)

module _ (fl : Floats) (st : List Frame) where
  run_end :
      (x : Number) (j : Json)
      → number_value fl x ≡ ok j
      → run fl (number x) st [] ≡ run fl (after_value j) st []
  unfolding run finish
  run_end x j h = elim st as (λ k. finish fl (number x) k ≡ finish fl (after_value j) k) [
    | [] ↦ h
    | f ∷ fs ↦ refl
  ]

  -- A character at which a number ends is read as the one after it.
  run_stop :
      (neg : Bool) (n : ℕ) (t : Text) (c : ℕ) (s : Text)
      → Ends (c ∷ s)
      → run fl (number (whole neg n t)) st (c ∷ s)
        ≡ run fl (after_value (num (signed_int neg n))) st (c ∷ s)
  unfolding run step step_number next_number number_value
  run_stop neg n t c s h = let e : next_number (whole neg n t) c ≡ none = ground (arith, h) in rw e

  run_next :
      (neg : Bool) (n : ℕ) (t : Text) (c : ℕ) (s : Text)
      → is_digit c ≡ true
      → run fl (number (whole neg n t)) st (c ∷ s)
        ≡ run fl (number (whole neg (n * 10 + (c - b'0')) (t ++ c ∷ []))) st s
  unfolding run step step_number next_number
  run_next neg n t c s d = rw d

  run_whole :
      (neg : Bool) (n m : ℕ) (t s rest : Text)
      → read_digits n s ≡ (m, rest)
      → Ends rest
      → run fl (number (whole neg n t)) st s ≡ run fl (after_value (num (signed_int neg m))) st rest
  unfolding read_digits
  run_whole neg n m t [] rest e h =
      run_end (whole neg n t) (num (signed_int neg n)) (unfold number_value in refl)
      ∙ ap (λ (p : ℕ × Text). run fl (after_value (num (signed_int neg p.0))) st p.1) e
  run_whole neg n m t (c ∷ s) rest e h = elim (Bool-cases (is_digit c)) [
    | inl d ↦
        run_next neg n t c s d
        ∙ run_whole neg (n * 10 + (c - b'0')) m (t ++ c ∷ []) s rest (rw d at e) h
    | inr d ↦
        let e' : ◌≡◌ {A = ℕ × Text} (n, c ∷ s) (m, rest) = rw d at e in
        run_stop neg n t c s (subst Ends (sym (ap (λ (p : ℕ × Text). p.1) e')) h)
        ∙ ap (λ (p : ℕ × Text). run fl (after_value (num (signed_int neg p.0))) st p.1) e'
  ]

  -- A value or a minus, and a first digit.
  start_digit :
      (c : ℕ)
      → (leb b'1' c && leb c b'9') ≡ true
      → step fl value_start st c ≡ ok (number (whole false (c - b'0') (c ∷ [])), st)
  unfolding step start_value is_digit is_blank
  start_digit c d = ground (arith, d)

  minus_digit :
      (c : ℕ)
      → (leb b'1' c && leb c b'9') ≡ true
      → step fl (number minus) st c ≡ ok (number (whole true (c - b'0') (b'-' ∷ c ∷ [])), st)
  unfolding step step_number next_number is_digit
  minus_digit c d = ground (arith, d)

  -- The digits of a number above zero, after a sign.
  run-show_nat :
      (m : Mode) (neg : Bool) (t : ℕ → Text) (n : ℕ) (rest : Text)
      → ((c : ℕ)
          → (leb b'1' c && leb c b'9') ≡ true
          → step fl m st c ≡ ok (number (whole neg (c - b'0') (t c)), st))
      → Ends rest
      → run fl m st (show_nat (suc n) ++ rest)
        ≡ run fl (after_value (num (signed_int neg (suc n)))) st rest
  unfolding read_digits is_digit
  run-show_nat m neg t n rest h ends =
      let (c, s, e, d) = show_nat_head n rest in
      let digits : read_digits (c - b'0') s ≡ (suc n, rest) = ground (
        arith,
        d,
        ap (read_digits 0) e,
        read_digits-show_nat_onto (suc n) rest,
        read_digits-Ends (suc n) rest ends,
      ) in
      ap (run fl m st) e
      ∙ unfold run in (rw (h c d)) ∙ run_whole neg (c - b'0') (suc n) (t c) s rest digits ends

  run_zero :
      (rest : Text)
      → Ends rest
      → run fl value_start st (b'0' ∷ rest) ≡ run fl (after_value (num (pos 0))) st rest
  unfolding run step start_value is_digit is_blank next_number step_number number_value
  run_zero [] h = run_end (lone_zero false (b'0' ∷ [])) (num (pos 0)) refl
  run_zero (c ∷ s) h =
      let e : next_number (lone_zero false (b'0' ∷ [])) c ≡ none = ground (arith, h) in rw e

  pub run-show_int :
      (i : ℤ) (rest : Text)
      → Ends rest
      → run fl value_start st (show_int i ++ rest) ≡ run fl (after_value (num i)) st rest
  unfolding show_int
  run-show_int (pos zero) rest h = unfold show_nat in run_zero rest h
  run-show_int (pos (suc n)) rest h =
      run-show_nat value_start false (λ c. c ∷ []) n rest start_digit h
  run-show_int (negsuc n) rest h =
      unfold run step start_value is_blank in
      run-show_nat (number minus) true (λ c. b'-' ∷ c ∷ []) n rest minus_digit h
