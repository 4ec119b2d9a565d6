-- ===== src/Text/Utf8/Laws/Range.antt =====
-- UTF-8 is made of bytes.
use fidrouter.Base.{ℕ, ◌<◌, Text, Bytes, ok, some, [], ◌∷◌, ◌≡◌, subst, sym, All, All-append, arith}
use fidrouter.Text.Utf8.{encode_char, encode}
use fidrouter.Exec.{ok-injective}
use fidrouter.Text.Utf8.Laws.{encode-cons}

abbrev IsByte : ℕ → Type 0
IsByte b = b < 256

encode_char-IsByte : (c : ℕ) (bs : Bytes) → encode_char c ≡ some bs → All IsByte bs
unfolding encode_char
encode_char-IsByte c bs h = ground arith

pub encode-IsByte : (s : Text) (b : Bytes) → encode s ≡ ok b → All IsByte b
encode-IsByte [] b h = subst (All IsByte) (ok-injective [] b (unfold encode in h)) tt
encode-IsByte (c ∷ s) b h =
    let (bs, more, e, es, eb) = encode-cons c s b h in
    subst (All IsByte) (sym eb)
      (All-append IsByte bs more (encode_char-IsByte c bs e) (encode-IsByte s more es))
