-- ===== src/Text/Utf8/Laws.antt =====
-- UTF-8 loses nothing: two texts with the same bytes are the same.
pub mod Range
use fidrouter.Base.{
  ℕ, ◌+◌, ◌*◌, ◌-◌, Text, Bytes, ok, ◌>>=◌, >>=-eq-ok, some, [], ◌∷◌, ◌++◌, ltb, if◌then◌else◌, ◌≡◌,
  refl, ap, sym, ◌∙◌, arith, Option-cases, inl, inr,
}
use fidrouter.Text.Utf8.{encode_char, encode}

-- A reader of the first code point.
decode_char : Bytes → ℕ × Bytes
decode_char (a ∷ r) =
    if ltb a 0x80
    then (a, r)
    else if ltb a 0xe0
    then decode_two a r
    else if ltb a 0xf0
    then decode_three a r
    else decode_four a r
  where
    decode_two : ℕ → Bytes → ℕ × Bytes
    decode_two a (b ∷ r) = ((a - 0xc0) * 64 + (b - 0x80), r)
    decode_two a [] = (0, [])

    decode_three : ℕ → Bytes → ℕ × Bytes
    decode_three a (b ∷ c ∷ r) = ((a - 0xe0) * 4096 + (b - 0x80) * 64 + (c - 0x80), r)
    decode_three a _ = (0, [])

    decode_four : ℕ → Bytes → ℕ × Bytes
    decode_four a (b ∷ c ∷ d ∷ r) =
        ((a - 0xf0) * 262144 + (b - 0x80) * 4096 + (c - 0x80) * 64 + (d - 0x80), r)
    decode_four a _ = (0, [])
decode_char [] = (0, [])

decode_char-encode_char :
    (c : ℕ) (bs r : Bytes) → encode_char c ≡ some bs → decode_char (bs ++ r) ≡ (c, r)
unfolding decode_char encode_char
decode_char-encode_char c bs r h = ground arith

encode_char-ne-nil : (c : ℕ) → encode_char c ≡ some [] → ⊥
unfolding encode_char
encode_char-ne-nil c h = ground arith

pub encode-cons :
    (c : ℕ) (s : Text) (b : Bytes)
    → encode (c ∷ s) ≡ ok b
    → (bs : Bytes) × (more : Bytes) × (encode_char c ≡ some bs)
      × (encode s ≡ ok more)
      × (b ≡ bs ++ more)
unfolding encode
encode-cons c s b h = elim (Option-cases (encode_char c)) [
  | inl bad ↦ absurd (ground (arith, bad))
  | inr (bs, e) ↦
      let h' : (encode s >>= λ more. ok (bs ++ more)) ≡ ok b = rw e at h in
      let (more, es, eb) = >>=-eq-ok (encode s) (λ more. ok (bs ++ more)) h' in
      (bs, more, e, es, cc)
]

encode_char-append-ne-nil :
    (c : ℕ) (bs more : Bytes) → encode_char c ≡ some bs → bs ++ more ≡ [] → ⊥
encode_char-append-ne-nil c [] more e h = encode_char-ne-nil c e
encode_char-append-ne-nil c (b ∷ bs) more e h = cc

not-encode-cons-nil : (c : ℕ) (s : Text) → encode (c ∷ s) ≡ ok [] → ⊥
not-encode-cons-nil c s h =
    let (bs, more, e, _, eb) = encode-cons c s [] h in
    encode_char-append-ne-nil c bs more e (sym eb)

-- The encoding of a text determines it.
pub encode-injective : (s t : Text) {b : Bytes} → encode s ≡ ok b → encode t ≡ ok b → s ≡ t
encode-injective [] [] h k = refl
encode-injective [] (d ∷ t) h k =
    absurd (not-encode-cons-nil d t (k ∙ sym h ∙ unfold encode in refl))
encode-injective (c ∷ s) [] h k =
    absurd (not-encode-cons-nil c s (h ∙ sym k ∙ unfold encode in refl))
encode-injective (c ∷ s) (d ∷ t) {b} h k =
    let (bs, more, e, es, eb) = encode-cons c s b h in
    let (bs', more', e', et, eb') = encode-cons d t b k in
    let same_read : decode_char (bs ++ more) ≡ decode_char (bs' ++ more') =
      ap decode_char (sym eb ∙ eb') in
    let heads : (c, more) ≡ (d, more') =
      sym (decode_char-encode_char c bs more e)
      ∙ same_read
      ∙ decode_char-encode_char d bs' more' e' in
    let tails : s ≡ t = encode-injective s t es (et ∙ cc heads) in cc (heads, tails)
