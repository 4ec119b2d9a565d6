-- ===== src/Text/Utf8/Decode/Laws.antt =====
-- Reading UTF-8 gives back the text that was written.
use fidrouter.Base.{
  ℕ, suc, ◌+◌, ◌*◌, ◌-◌, ◌/◌, ◌%◌, ◌<◌, ◌≤◌, Text, Bytes, Option, some, [], ◌∷◌, ◌++◌, Result, ok,
  ltb, leb, ◌==◌, ◌&&◌, true, false, if◌then◌else◌, if-split, subst, ltb→lt, ◌≡◌, refl, ap, ◌∙◌,
  arith, inl, inr, ◌⊎◌,
}
use fidrouter.Text.Utf8.{encode_char, encode}
use fidrouter.Exec.{ok-injective}
use fidrouter.Text.Utf8.Laws.{encode-cons}
use fidrouter.Text.Utf8.Decode.{lead_of, lead, emit, decode_loop, decode, decode_lax}

-- The last byte after 0xed is one of the two that the readers know.
module _ (ed_high : ℕ) (ed_ok : 0x9f ≤ ed_high) where
  abbrev read : Bytes → Result Text
  read bs = decode_loop ed_high 0 0 0 0 bs

  read_plain : (b : ℕ) (bs : Bytes) → b < 0x80 → read (b ∷ bs) ≡ emit b (read bs)
  unfolding decode_loop
  read_plain b bs h = let small : ltb b 0x80 ≡ true = ground arith in rw small refl

  lead_step :
      (b more bits low high : ℕ) (bs : Bytes)
      → 0x80 ≤ b
      → lead ed_high b ≡ lead_of more bits low high
      → read (b ∷ bs) ≡ decode_loop ed_high more bits low high bs
  unfolding decode_loop
  lead_step b more bits low high bs h e =
      let large : ltb b 0x80 ≡ false = ground arith in rw (large, e) refl

  read_last :
      (bits low high b : ℕ) (bs : Bytes)
      → low ≤ b
      → b ≤ high
      → decode_loop ed_high 1 bits low high (b ∷ bs) ≡ emit (bits * 64 + (b - 0x80)) (read bs)
  unfolding decode_loop
  read_last bits low high b bs hl hh =
      let inside : leb low b && leb b high ≡ true = ground arith in rw inside refl

  read_next :
      (n bits low high b : ℕ) (bs : Bytes)
      → low ≤ b
      → b ≤ high
      → decode_loop ed_high (suc (suc n)) bits low high (b ∷ bs)
        ≡ decode_loop ed_high (suc n) (bits * 64 + (b - 0x80)) 0x80 0xbf bs
  unfolding decode_loop
  read_next n bits low high b bs hl hh =
      let inside : leb low b && leb b high ≡ true = ground arith in rw inside (ground arith)

  -- The range of the second byte, for a code point of three bytes and of four.
  abbrev low_three : ℕ → ℕ
  low_three c = if c / 4096 == 0 then 0xa0 else 0x80

  abbrev high_three : ℕ → ℕ
  high_three c = if c / 4096 == 0xd then ed_high else 0xbf

  abbrev low_four : ℕ → ℕ
  low_four c = if c / 262144 == 0 then 0x90 else 0x80

  abbrev high_four : ℕ → ℕ
  high_four c = if c / 262144 == 4 then 0x8f else 0xbf

  lead_two :
      (c : ℕ) → 0x80 ≤ c → c < 0x800 → lead ed_high (0xc0 + c / 64) ≡ lead_of 1 (c / 64) 0x80 0xbf
  unfolding lead
  lead_two c h k = ground arith

  lead_three :
      (c : ℕ)
      → c < 0x10000
      → lead ed_high (0xe0 + c / 4096) ≡ lead_of 2 (c / 4096) (low_three c) (high_three c)
  unfolding lead
  lead_three c k = ground arith

  lead_four :
      (c : ℕ)
      → c < 0x110000
      → lead ed_high (0xf0 + c / 262144) ≡ lead_of 3 (c / 262144) (low_four c) (high_four c)
  unfolding lead
  lead_four c k = ground arith

  -- The bytes of a code point are read as that code point.
  abbrev Reads : ℕ → Bytes → Bytes → Type 0
  Reads c bs r = read (bs ++ r) ≡ emit c (read r)

  read_two :
      (c : ℕ) (r : Bytes)
      → 0x80 ≤ c
      → c < 0x800
      → Reads c ((0xc0 + c / 64) ∷ (0x80 + c % 64) ∷ []) r
  read_two c r h k =
      lead_step (0xc0 + c / 64) 1 (c / 64) 0x80 0xbf _ (omega arith) (lead_two c h k)
      ∙ read_last (c / 64) 0x80 0xbf (0x80 + c % 64) r (omega arith) (omega arith)
      ∙ ap (λ v. emit v (read r)) (omega arith)

  read_three :
      (c : ℕ) (r : Bytes)
      → 0x800 ≤ c
      → c < 0x10000
      → (c < 0xd800) ⊎ (0xe000 ≤ c)
      → Reads c ((0xe0 + c / 4096) ∷ (0x80 + c / 64 % 64) ∷ (0x80 + c % 64) ∷ []) r
  read_three c r h k s =
      lead_step (0xe0 + c / 4096) 2 (c / 4096) (low_three c) (high_three c) _ (omega arith)
        (lead_three c k)
      ∙ read_next 0 (c / 4096) (low_three c) (high_three c) (0x80 + c / 64 % 64) _ (ground arith)
          (ground arith)
      ∙ read_last (c / 4096 * 64 + (0x80 + c / 64 % 64 - 0x80)) 0x80 0xbf (0x80 + c % 64) r
          (omega arith) (omega arith)
      ∙ ap (λ v. emit v (read r)) (omega arith)

  read_four :
      (c : ℕ) (r : Bytes)
      → 0x10000 ≤ c
      → c < 0x110000
      → Reads c
          ((0xf0 + c / 262144)
            ∷ (0x80 + c / 4096 % 64)
            ∷ (0x80 + c / 64 % 64)
            ∷ (0x80 + c % 64)
            ∷ [])
          r
  read_four c r h k =
      lead_step (0xf0 + c / 262144) 3 (c / 262144) (low_four c) (high_four c) _ (omega arith)
        (lead_four c k)
      ∙ read_next 1 (c / 262144) (low_four c) (high_four c) (0x80 + c / 4096 % 64) _ (ground arith)
          (ground arith)
      ∙ read_next 0 (c / 262144 * 64 + (0x80 + c / 4096 % 64 - 0x80)) 0x80 0xbf (0x80 + c / 64 % 64)
          _ (omega arith) (omega arith)
      ∙ read_last
          ((c / 262144 * 64 + (0x80 + c / 4096 % 64 - 0x80)) * 64 + (0x80 + c / 64 % 64 - 0x80))
          0x80 0xbf (0x80 + c % 64) r (omega arith) (omega arith)
      ∙ ap (λ v. emit v (read r)) (omega arith)

  abbrev ReadsOption : ℕ → Bytes → Option Bytes → Type 0
  ReadsOption c r o = (bs : Bytes) → o ≡ some bs → Reads c bs r

  some-Reads : (c : ℕ) (r bs : Bytes) → Reads c bs r → ReadsOption c r (some bs)
  some-Reads c r bs h bs' e = subst (λ b. Reads c b r) (ground (arith, e)) h

  read-encode_char : (c : ℕ) (r : Bytes) → ReadsOption c r (encode_char c)
  unfolding encode_char
  read-encode_char c r =
      if-split (ReadsOption c r) (ltb c 0x80) _ _
        (λ h. some-Reads c r _ (read_plain c r (ltb→lt c _ h)))
        λ h1.
          if-split (ReadsOption c r) (ltb c 0x800) _ _
            (λ h. some-Reads c r _ (read_two c r (ground arith) (ground arith)))
            λ h2.
              if-split (ReadsOption c r) (ltb c 0xd800) _ _
                (λ h.
                  some-Reads c r _
                    (read_three c r (ground arith) (ground arith) (inl (ground arith))))
                λ h3.
                  if-split (ReadsOption c r) (ltb c 0xe000) _ _
                    (λ h bs e. absurd (ground (arith, e)))
                    λ h4.
                      if-split (ReadsOption c r) (ltb c 0x10000) _ _
                        (λ h.
                          some-Reads c r _
                            (read_three c r (ground arith) (ground arith) (inr (ground arith))))
                        λ h5.
                          if-split (ReadsOption c r) (ltb c 0x110000) _ _
                            (λ h. some-Reads c r _ (read_four c r (ground arith) (ground arith)))
                            λ h bs e. absurd (ground (arith, e))

  read-encode : (s : Text) (b : Bytes) → encode s ≡ ok b → read b ≡ ok s
  unfolding emit
  read-encode [] b h =
      subst (λ x. read x ≡ ok []) (ok-injective [] b (unfold encode in h))
        (unfold decode_loop in refl)
  read-encode (c ∷ s) b h =
      let (bs, more, e, es, eb) = encode-cons c s b h in
      ap read eb ∙ read-encode_char c more bs e ∙ rw (read-encode s more es)

-- Both readers of UTF-8 give back a text that was written in it.
pub decode-encode : (s : Text) (b : Bytes) → encode s ≡ ok b → decode b ≡ ok s
unfolding decode
decode-encode s b h = read-encode 0x9f (omega arith) s b h

pub decode_lax-encode : (s : Text) (b : Bytes) → encode s ≡ ok b → decode_lax b ≡ ok s
unfolding decode_lax
decode_lax-encode s b h = read-encode 0xbf (omega arith) s b h
