-- ===== src/Text/Base64/Laws.antt =====
-- The URL-safe form without padding, which `_b64u` writes, is read back by `_b64url`.
pub mod Undotted
use mathlib.Core.List.{map}
use fidrouter.Base.{
  ℕ, ◌+◌, ◌*◌, ◌/◌, ◌%◌, ◌<◌, suc, Text, Bytes, Bool, true, false, some, [], ◌∷◌, ◌++◌, ok, err,
  value_error, length, replicate, ltb, ◌==◌, if◌then◌else◌, lit, ◌≡◌, refl, ◌∙◌, All, arith,
}
use fidrouter.Text.Strip.{rstrip, drop_last}
use fidrouter.Text.Base64.{
  sextet_char, char_sextet, encode_with, urlsafe_encode, b64u, emit, step_group, decode_loop,
  all_ascii, b64_decode, pad_count, to_standard, b64url,
}

b64u_sample : b64u (0xfb ∷ 0xff ∷ 0x61 ∷ 0x62 ∷ []) ≡ lit "-_9hYg"
unfolding b64u
b64u_sample = refl

b64url_sample : b64url (lit "-_9hYg") ≡ ok (0xfb ∷ 0xff ∷ 0x61 ∷ 0x62 ∷ [])
unfolding b64url
b64url_sample = refl

b64_decode_lenient : b64_decode (lit "Y W\nI=") ≡ ok (0x61 ∷ 0x62 ∷ [])
unfolding b64_decode
b64_decode_lenient = refl

abbrev url_char : ℕ → ℕ
url_char d = sextet_char b'-' b'_' d

-- The value of a character that `_b64u` writes, and what it is not.
char_sextet-url_char : (d : ℕ) → d < 64 → char_sextet (to_standard (url_char d)) ≡ some d
unfolding sextet_char char_sextet to_standard
char_sextet-url_char d h = ground arith

url_char-ne-pad : (d : ℕ) → d < 64 → (to_standard (url_char d) == b'=') ≡ false
unfolding sextet_char to_standard
url_char-ne-pad d h = ground arith

url_char_plain : (d : ℕ) → d < 64 → (url_char d == b'=') ≡ false
unfolding sextet_char
url_char_plain d h = ground arith

url_char-ascii : (d : ℕ) → d < 64 → ltb (to_standard (url_char d)) 0x80 ≡ true
unfolding sextet_char to_standard
url_char-ascii d h = ground arith

decode_loop-url_char :
    (quad left pads d : ℕ) (s : Text)
    → d < 64
    → decode_loop quad left pads (to_standard (url_char d) ∷ s)
      ≡ step_group quad left d (λ q l. decode_loop q l 0 s)
unfolding decode_loop
decode_loop-url_char quad left pads d s h = rw (url_char-ne-pad d h, char_sextet-url_char d h)

-- The encoding without its padding.
unpadded : Bytes → Text
unpadded [] = []
unpadded (a ∷ []) = url_char (a / 4) ∷ url_char (a % 4 * 16) ∷ []
unpadded (a ∷ b ∷ []) =
    url_char (a / 4) ∷ url_char (a % 4 * 16 + b / 16) ∷ url_char (b % 16 * 4) ∷ []
unpadded (a ∷ b ∷ c ∷ bs) =
    url_char (a / 4)
    ∷ url_char (a % 4 * 16 + b / 16)
    ∷ url_char (b % 16 * 4 + c / 64)
    ∷ url_char (c % 64)
    ∷ unpadded bs

drop_last-keep :
    (p : ℕ → Bool) (c : ℕ) (s : Text) → p c ≡ false → drop_last p (c ∷ s) ≡ c ∷ drop_last p s
unfolding drop_last
drop_last-keep p c s h = ground arith

not-pad : (d : ℕ) → (url_char d == b'=') ≡ false
unfolding sextet_char
not-pad d = ground arith

rstrip-keep : (d : ℕ) (s : Text) → rstrip b'=' (url_char d ∷ s) ≡ url_char d ∷ rstrip b'=' s
unfolding rstrip
rstrip-keep d s = drop_last-keep (λ c. c == b'=') (url_char d) s (not-pad d)

b64u-eq-unpadded : (bs : Bytes) → b64u bs ≡ unpadded bs
unfolding b64u unpadded urlsafe_encode encode_with
b64u-eq-unpadded [] = refl
b64u-eq-unpadded (a ∷ []) = simp rstrip-keep
b64u-eq-unpadded (a ∷ b ∷ []) = simp rstrip-keep
b64u-eq-unpadded (a ∷ b ∷ c ∷ bs) = simp rstrip-keep (cc (b64u-eq-unpadded bs))

abbrev pub IsByte : ℕ → Type 0
IsByte b = b < 256

-- What the decoder is given: the padding is put back, and the alphabet exchanged.
repadded : Text → Text
unfolding pad_count
repadded s = map to_standard (s ++ replicate (pad_count (length s)) b'=')

pad_count-add_four : (n : ℕ) → pad_count (suc (suc (suc (suc n)))) ≡ pad_count n
unfolding pad_count
pad_count-add_four n = omega arith

module _ (s : Text) where
  first_two :
      (d e : ℕ)
      → d < 64
      → e < 64
      → decode_loop 0 0 0 (to_standard (url_char d) ∷ to_standard (url_char e) ∷ s)
        ≡ emit (d * 4 + e / 16) (decode_loop 2 (e % 16) 0 s)
  unfolding step_group
  first_two d e h k = decode_loop-url_char 0 0 0 d _ h ∙ decode_loop-url_char 1 d 0 e s k

  third :
      (l d : ℕ)
      → d < 64
      → decode_loop 2 l 0 (to_standard (url_char d) ∷ s)
        ≡ emit (l * 16 + d / 4) (decode_loop 3 (d % 4) 0 s)
  unfolding step_group
  third l d h = decode_loop-url_char 2 l 0 d s h

  fourth :
      (l d : ℕ)
      → d < 64
      → decode_loop 3 l 0 (to_standard (url_char d) ∷ s) ≡ emit (l * 64 + d) (decode_loop 0 0 0 s)
  unfolding step_group
  fourth l d h = decode_loop-url_char 3 l 0 d s h

two_pads : (l : ℕ) → decode_loop 2 l 0 (to_standard b'=' ∷ to_standard b'=' ∷ []) ≡ ok []
unfolding decode_loop to_standard
two_pads l = refl

one_pad : (l : ℕ) → decode_loop 3 l 0 (to_standard b'=' ∷ []) ≡ ok []
unfolding decode_loop to_standard
one_pad l = refl

emit-ok : (b b' : ℕ) (bs : Bytes) → b ≡ b' → emit b (ok bs) ≡ ok (b' ∷ bs)
unfolding emit
emit-ok b b' bs e = cc

decode_loop-unpadded :
    (bs : Bytes) → All IsByte bs → decode_loop 0 0 0 (repadded (unpadded bs)) ≡ ok bs
unfolding unpadded repadded
decode_loop-unpadded [] h = unfold decode_loop in refl
decode_loop-unpadded (a ∷ []) (ha, _) =
    first_two _ (a / 4) (a % 4 * 16) (omega arith) (omega arith)
    ∙ rw two_pads (emit-ok _ a [] (omega arith))
decode_loop-unpadded (a ∷ b ∷ []) (ha, (hb, _)) =
    first_two _ (a / 4) (a % 4 * 16 + b / 16) (omega arith) (omega arith)
    ∙ rw
        (
          third _ _ (b % 16 * 4) (omega arith),
          one_pad,
          emit-ok ((a % 4 * 16 + b / 16) % 16 * 16 + b % 16 * 4 / 4) b [] (omega arith),
        )
        (emit-ok _ a (b ∷ []) (omega arith))
decode_loop-unpadded (a ∷ b ∷ c ∷ bs) (ha, (hb, (hc, hs))) =
    first_two _ (a / 4) (a % 4 * 16 + b / 16) (omega arith) (omega arith)
    ∙ rw
        (
          third _ _ (b % 16 * 4 + c / 64) (omega arith),
          fourth _ _ (c % 64) (omega arith),
          pad_count-add_four,
          decode_loop-unpadded bs hs,
          emit-ok ((b % 16 * 4 + c / 64) % 4 * 64 + c % 64) c bs (omega arith),
          emit-ok ((a % 4 * 16 + b / 16) % 16 * 16 + (b % 16 * 4 + c / 64) / 4) b (c ∷ bs)
              (omega arith),
        )
        (emit-ok _ a (b ∷ c ∷ bs) (omega arith))

pad-ascii : ltb (to_standard b'=') 0x80 ≡ true
unfolding to_standard
pad-ascii = refl

all_ascii-unpadded : (bs : Bytes) → All IsByte bs → all_ascii (repadded (unpadded bs)) ≡ true
unfolding unpadded repadded all_ascii
all_ascii-unpadded [] h = refl
all_ascii-unpadded (a ∷ []) (ha, _) =
    rw (url_char-ascii (a / 4) (omega arith), url_char-ascii (a % 4 * 16) (omega arith), pad-ascii)
all_ascii-unpadded (a ∷ b ∷ []) (ha, (hb, _)) = rw (
  url_char-ascii (a / 4) (omega arith),
  url_char-ascii (a % 4 * 16 + b / 16) (omega arith),
  url_char-ascii (b % 16 * 4) (omega arith),
  pad-ascii,
)
all_ascii-unpadded (a ∷ b ∷ c ∷ bs) (ha, (hb, (hc, hs))) =
    rw
      (
        url_char-ascii (a / 4) (omega arith),
        url_char-ascii (a % 4 * 16 + b / 16) (omega arith),
        url_char-ascii (b % 16 * 4 + c / 64) (omega arith),
        url_char-ascii (c % 64) (omega arith),
        pad_count-add_four,
      )
      (all_ascii-unpadded bs hs)

b64url-eq-decode_loop :
    (s : Text)
    → b64url s
      ≡ (if all_ascii (repadded s) then decode_loop 0 0 0 (repadded s) else err value_error)
unfolding b64url b64_decode repadded
b64url-eq-decode_loop s = refl

-- What `_b64u` writes of any bytes, `_b64url` reads back.
pub b64url-b64u : (bs : Bytes) → All IsByte bs → b64url (b64u bs) ≡ ok bs
b64url-b64u bs h =
    rw (
      b64u-eq-unpadded bs,
      b64url-eq-decode_loop,
      all_ascii-unpadded bs h,
      decode_loop-unpadded bs h,
    )
