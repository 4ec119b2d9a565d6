-- ===== src/Receipt/Canonical/Forms.antt =====
-- What tells the canonical text of a receipt from the other bytes that an enclave's key signs: its
-- length, and how it begins.
use fidrouter.Base.{
  ℕ, ◌≤◌, ◌<◌, Text, Bytes, lit, true, some, [], ◌∷◌, ◌++◌, ok, length, length-append, ltb, All,
  arith, ◌≡◌, refl, ap, sym, ◌∙◌,
}
use fidrouter.Text.Strip.{starts_with}
use fidrouter.Text.Decimal.{show_int}
use fidrouter.Text.Utf8.{encode_char, encode}
use fidrouter.Text.Utf8.Laws.{encode-cons}
use fidrouter.Receipt.Canonical.{Receipt, receipt_text}

-- No character has an empty form.
length-encode_char : (c : ℕ) (bs : Bytes) → encode_char c ≡ some bs → 1 ≤ length bs
unfolding encode_char
length-encode_char c [] h = absurd (ground (arith, h))
length-encode_char c (b ∷ bs) h = omega arith

length-encode : (s : Text) (b : Bytes) → encode s ≡ ok b → length s ≤ length b
length-encode [] b h = omega arith
length-encode (c ∷ s) b h =
    let (bs, more, ec, es, eb) = encode-cons c s b h in
    rw eb
      (omega (arith, length-encode_char c bs ec, length-encode s more es, length-append bs more))

encode-ascii-append :
    (p s : Text) (b : Bytes)
    → All (λ c. ltb c 0x80 ≡ true) p
    → encode (p ++ s) ≡ ok b
    → (more : Bytes) × (b ≡ p ++ more)
unfolding encode_char
encode-ascii-append [] s b h e = (b, refl)
encode-ascii-append (c ∷ p) s b (hc, h) e =
    let (bs, more, ec, es, eb) = encode-cons c (p ++ s) b e in
    let (rest, er) = encode-ascii-append p s more h es in
    let one : c ∷ [] ≡ bs = cc (rw hc at ec) in
    (rest, eb ∙ ap (λ l. l ++ more) (sym one) ∙ ap (λ l. c ∷ l) er)

longer : (a b : Text) → length b ≤ length (a ++ b)
longer a b = omega (arith, length-append a b)

-- Four of the keys are more than 32 characters.
keys-long :
    (w x y rest : Text)
    → 32
      < length (
          lit "{\"ts_unix\":"
          ++ (w
              ++ (lit ",\"tenant\":"
                  ++ (x ++ (lit ",\"model\":" ++ (y ++ (lit ",\"account\":" ++ rest)))))))
keys-long w x y rest =
    let l3 = lit ",\"account\":" ++ rest in
    let l2 = lit ",\"model\":" ++ (y ++ l3) in
    let l1 = lit ",\"tenant\":" ++ (x ++ l2) in omega (arith, longer w l1, longer x l2, longer y l3)

-- The canonical bytes of a receipt, for any way of quoting, begin with its first key.
pub receipt_text-starts :
    (quote : Text → Text) (r : Receipt) (b : Bytes)
    → encode (receipt_text quote r) ≡ ok b
    → starts_with b (lit "{\"ts_unix\":") ≡ true
unfolding receipt_text starts_with
receipt_text-starts quote r b e =
    let (more, eb) = encode-ascii-append (lit "{\"ts_unix\":") _ b (ground arith) e in rw eb refl

-- They are longer than a key.
pub receipt_text-long :
    (quote : Text → Text) (r : Receipt) (b : Bytes)
    → encode (receipt_text quote r) ≡ ok b
    → 32 < length b
unfolding receipt_text
receipt_text-long quote r b e =
    omega (
      arith,
      length-encode _ b e,
      keys-long (show_int r.ts_unix) (quote r.tenant) (quote r.model) _,
    )
