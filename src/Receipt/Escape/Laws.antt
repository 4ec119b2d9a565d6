-- ===== src/Receipt/Escape/Laws.antt =====
-- What a quoted text determines, and where the two encoders agree.
use mathlib.Core.List.{append_cancel_left}
use fidrouter.Base.{
  ℕ, ◌+◌, ◌*◌, ◌/◌, ◌%◌, ◌<◌, Text, Option, none, some, [], ◌∷◌, ◌++◌, append_assoc, ◌==◌,
  if◌then◌else◌, ◌≡◌, ◌≢◌, ◌↔◌, refl, ap, sym, ◌∙◌, arith, All,
}
use fidrouter.Text.Hex.{hex_digit, unhex_digit, unhex_digit-hex_digit}
use fidrouter.Receipt.Escape.{
  escape_char, escape, jstr, go_escape_char, go_escape, go_jstr, unicode_escape,
}

-- The character at the head of an escaped text; `none` at the closing quote.
read_hex : Text → Option (ℕ × Text)
read_hex (a ∷ b ∷ h ∷ l ∷ s) = some (unhex_digit h * 16 + unhex_digit l, s)
read_hex s = none

after_backslash : Text → Option (ℕ × Text)
unfolding read_hex
after_backslash [] = none
after_backslash (k ∷ s) = if k == b'u' then read_hex s else some (k, s)

unescape : Text → Option (ℕ × Text)
unfolding after_backslash
unescape [] = none
unescape (c ∷ s) = if c == b'"' then none else if c == b'\\' then after_backslash s else some (c, s)

unescape-unicode_escape :
    (c : ℕ) (rest : Text) → c < 0x20 → unescape (unicode_escape c ++ rest) ≡ some (c, rest)
unfolding unescape
unescape-unicode_escape c rest h =
    rw (unhex_digit-hex_digit (c / 16) (omega arith), unhex_digit-hex_digit (c % 16) (omega arith))
      (ground arith)

unescape-escape_char : (c : ℕ) (rest : Text) → unescape (escape_char c ++ rest) ≡ some (c, rest)
unfolding escape_char unescape unhex_digit
unescape-escape_char c rest = ground (arith, unescape-unicode_escape c rest)

unescape-escape :
    (c : ℕ) (s rest : Text) → unescape (escape (c ∷ s) ++ rest) ≡ some (c, escape s ++ rest)
unfolding escape
unescape-escape c s rest =
    rw (append_assoc (escape_char c) (escape s) rest) (unescape-escape_char c (escape s ++ rest))

unescape-quote : (rest : Text) → unescape (escape [] ++ b'"' ∷ rest) ≡ none
unfolding unescape escape
unescape-quote rest = refl

-- A quoted text and what follows it are determined by the characters after the opening quote.
pub escape-injective :
    (s t r r' : Text) → escape s ++ b'"' ∷ r ≡ escape t ++ b'"' ∷ r' → (s ≡ t) × (r ≡ r')
escape-injective [] [] r r' h = unfold escape in (refl, cc)
escape-injective [] (d ∷ t) r r' h =
    absurd (cc (ap unescape h, unescape-escape d t (b'"' ∷ r'), unescape-quote r))
escape-injective (c ∷ s) [] r r' h =
    absurd (cc (ap unescape h, unescape-escape c s (b'"' ∷ r), unescape-quote r'))
escape-injective (c ∷ s) (d ∷ t) r r' h =
    let heads : some (c, escape s ++ b'"' ∷ r) ≡ some (d, escape t ++ b'"' ∷ r') =
      sym (unescape-escape c s (b'"' ∷ r)) ∙ ap unescape h ∙ unescape-escape d t (b'"' ∷ r') in
    let (es, er) = escape-injective s t r r' (cc heads) in (cc (heads, es), er)

-- The characters that both encoders write alike.
abbrev pub IsPlain : ℕ → Type 0
IsPlain c = (c ≢ 8) × (c ≢ 9) × (c ≢ 10) × (c ≢ 12) × (c ≢ 13) × (c ≢ 0x2028) × (c ≢ 0x2029)

escape_char_plain : (c : ℕ) → IsPlain c → escape_char c ≡ go_escape_char c
unfolding escape_char go_escape_char hex_digit
escape_char_plain c h = ground arith

-- From an unusual character on, the two forms differ at once.
escape_char_unusual :
    (c : ℕ) (r r' : Text) → escape_char c ++ r ≡ go_escape_char c ++ r' → IsPlain c
unfolding escape_char go_escape_char hex_digit
escape_char_unusual c r r' h = ground arith

escape_agree : (s : Text) → All IsPlain s → escape s ≡ go_escape s
unfolding escape go_escape
escape_agree [] h = refl
escape_agree (c ∷ s) (hc, hs) = cc (escape_char_plain c hc, escape_agree s hs)

escape-IsPlain : (s q : Text) → escape s ++ q ≡ go_escape s ++ q → All IsPlain s
unfolding escape go_escape
escape-IsPlain [] q h = tt
escape-IsPlain (c ∷ s) q h =
    let split : escape_char c ++ (escape s ++ q) ≡ go_escape_char c ++ (go_escape s ++ q) =
      sym (append_assoc (escape_char c) (escape s) q)
      ∙ h
      ∙ append_assoc (go_escape_char c) (go_escape s) q in
    let plain : IsPlain c = escape_char_unusual c (escape s ++ q) (go_escape s ++ q) split in
    (
      plain,
      escape-IsPlain s q (
          append_cancel_left (go_escape_char c) _ _
            (ap (λ e. e ++ (escape s ++ q)) (sym (escape_char_plain c plain)) ∙ split)),
    )

-- `_jstr` and Go's encoder give a text the same form exactly when it has none of the five control
-- characters with a short form in Go (backspace, tab, newline, form feed, carriage return) and
-- none of the line separators U+2028 and U+2029.
pub jstr-eq-go_jstr : (s : Text) → (jstr s ≡ go_jstr s) ↔ All IsPlain s
unfolding jstr go_jstr
jstr-eq-go_jstr s = (
  λ h. escape-IsPlain s (b'"' ∷ []) (cc h),
  λ h. ap (λ e. b'"' ∷ (e ++ b'"' ∷ [])) (escape_agree s h),
)

-- A character escaped here is never the start of an unusual one escaped there.
escape_char-go_escape_char :
    (c d : ℕ) (r r' : Text) → escape_char c ++ r ≡ go_escape_char d ++ r' → IsPlain d
unfolding escape_char go_escape_char
escape_char-go_escape_char c d r r' h = ground arith

escape_char-ne-quote : (c : ℕ) (r r' : Text) → escape_char c ++ r ≡ b'"' ∷ r' → ⊥
unfolding escape_char
escape_char-ne-quote c r r' h = ground arith

go_escape_char-ne-quote : (c : ℕ) (r r' : Text) → go_escape_char c ++ r ≡ b'"' ∷ r' → ⊥
unfolding go_escape_char
go_escape_char-ne-quote c r r' h = ground arith

-- A text quoted here and a text quoted there that read alike are one.
escape-go_escape :
    (s t r r' : Text) → escape s ++ b'"' ∷ r ≡ go_escape t ++ b'"' ∷ r' → (s ≡ t) × (r ≡ r')
unfolding escape go_escape
escape-go_escape [] [] r r' h = (refl, cc)
escape-go_escape [] (d ∷ t) r r' h = absurd (
    go_escape_char-ne-quote d (go_escape t ++ b'"' ∷ r') r
      (sym (append_assoc (go_escape_char d) (go_escape t) (b'"' ∷ r')) ∙ sym h))
escape-go_escape (c ∷ s) [] r r' h = absurd (
    escape_char-ne-quote c (escape s ++ b'"' ∷ r) r'
      (sym (append_assoc (escape_char c) (escape s) (b'"' ∷ r)) ∙ h))
escape-go_escape (c ∷ s) (d ∷ t) r r' h =
    let split : escape_char c ++ (escape s ++ b'"' ∷ r)
        ≡ go_escape_char d ++ (go_escape t ++ b'"' ∷ r') =
      sym (append_assoc (escape_char c) (escape s) (b'"' ∷ r))
      ∙ h
      ∙ append_assoc (go_escape_char d) (go_escape t) (b'"' ∷ r') in
    let plain : IsPlain d = escape_char-go_escape_char c d _ _ split in
    let there : escape_char c ++ (escape s ++ b'"' ∷ r)
        ≡ escape_char d ++ (go_escape t ++ b'"' ∷ r') =
      split ∙ ap (λ e. e ++ (go_escape t ++ b'"' ∷ r')) (sym (escape_char_plain d plain)) in
    let heads : some (c, escape s ++ b'"' ∷ r) ≡ some (d, go_escape t ++ b'"' ∷ r') =
      sym (unescape-escape_char c (escape s ++ b'"' ∷ r))
      ∙ ap unescape there
      ∙ unescape-escape_char d (go_escape t ++ b'"' ∷ r') in
    let (es, er) = escape-go_escape s t r r' (cc heads) in (cc (heads, es), er)

quote_assoc : (s r : Text) → (s ++ b'"' ∷ []) ++ r ≡ s ++ b'"' ∷ r
quote_assoc s r = append_assoc s (b'"' ∷ []) r

-- A quoted text can be told from what follows it.
pub jstr-append-injective : (s t r r' : Text) → jstr s ++ r ≡ jstr t ++ r' → (s ≡ t) × (r ≡ r')
unfolding jstr
jstr-append-injective s t r r' h =
    escape-injective s t r r' (sym (quote_assoc (escape s) r) ∙ cc h ∙ quote_assoc (escape t) r')

pub jstr-append-go_jstr : (s t r r' : Text) → jstr s ++ r ≡ go_jstr t ++ r' → (s ≡ t) × (r ≡ r')
unfolding jstr go_jstr
jstr-append-go_jstr s t r r' h =
    escape-go_escape s t r r' (sym (quote_assoc (escape s) r) ∙ cc h ∙ quote_assoc (go_escape t) r')
