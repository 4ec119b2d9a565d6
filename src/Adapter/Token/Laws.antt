-- ===== src/Adapter/Token/Laws.antt =====
-- The validity of a token, and its form.
use fidrouter.Base.{
  Text, Bytes, List, [], ◌∷◌, All, ap, ◌∙◌, true, false, some, ok, >>=-eq-ok, ◌≡◌, refl, sym, subst,
  ◌⊎◌, inl, inr, ℤ, pos, negsuc, leb_ℤ, is_zero, Bool-cases, arith,
}
use fidrouter.Exec.{ok-injective}
use fidrouter.Text.Utf8.{encode}
use fidrouter.Text.Utf8.Laws.Range.{encode-IsByte}
use fidrouter.Text.Base64.{b64u, b64url}
use fidrouter.Text.Base64.Laws.{IsByte, b64url-b64u}
use fidrouter.Text.Base64.Laws.Undotted.{b64u-IsUndotted}
use fidrouter.Json.{Json}
use fidrouter.Json.Dump.{dumps_compact}
use fidrouter.Json.Loads.{loads}
use fidrouter.Json.Loads.Texts.{IsScalar}
use fidrouter.Json.Loads.Exact.{Exact, ExactItems, ExactFields}
use fidrouter.Json.Loads.Laws.{loads-dumps_compact}
use fidrouter.Jwt.{split}
use fidrouter.Jwt.Laws.{split_onto-append, split_onto_undotted}
use fidrouter.Adapter.Token.{
  or_default, texts_items, claims, mint_capability, Host, Settings, min_ℤ, max_ℤ, token_ttl,
}

-- At least a minute, and no longer than the configured time if that is longer than a minute.
abbrev pub Bounded : ℤ → ℤ → Type 0
Bounded most t = (leb_ℤ (pos 60) t ≡ true) × ((t ≡ pos 60) ⊎ (leb_ℤ t most ≡ true))

min_ℤ-leb : (a b : ℤ) → leb_ℤ (min_ℤ a b) a ≡ true
min_ℤ-leb (pos a) (pos b) = ground arith
min_ℤ-leb (pos a) (negsuc b) = ground arith
min_ℤ-leb (negsuc a) (pos b) = ground arith
min_ℤ-leb (negsuc a) (negsuc b) = ground arith

max_ℤ-Bounded : (most x : ℤ) → leb_ℤ x most ≡ true → Bounded most (max_ℤ (pos 60) x)
max_ℤ-Bounded most (negsuc x) h = (refl, inl refl)
max_ℤ-Bounded most (pos x) h = elim (Bool-cases (leb_ℤ (pos x) (pos 60))) [
  | inl small ↦ rw small (refl, inl refl)
  | inr large ↦ rw large (ground arith, inr h)
]

-- The token of a key that expires is valid for a minute at least, and never for longer than the
-- configured time, unless that is under a minute.
pub token_ttl-Bounded :
    (h : Host) (s : Settings) (e t : ℤ)
    → is_zero e ≡ false
    → token_ttl h s (some e) ≡ ok t
    → Bounded s.ttl t
unfolding token_ttl
token_ttl-Bounded h s e t nonzero x =
    let (end_time, _, x0) = >>=-eq-ok (h.floats.of_int e) _ (rw nonzero at x) in
    let (left, _, x1) = >>=-eq-ok (h.floats.truncate (h.floats.minus end_time h.now)) _ x0 in
    subst (Bounded s.ttl) (ok-injective _ t x1)
      (max_ℤ-Bounded s.ttl (min_ℤ s.ttl left) (min_ℤ-leb s.ttl left))

-- A token in two parts, of which the enclave reads the signed bytes and their signature.
pub record Readable (h : Host) (claimed : ℤ → Json) (token : Text) : Type 0 where
  pub now : ℤ
  pub now_eq : h.floats.truncate h.now ≡ ok now
  pub body : Bytes
  pub body_eq : encode (dumps_compact h.floats (claimed now)) ≡ ok body
  pub claims_eq : loads h.floats body ≡ ok (claimed now)
  pub part : Text
  pub signature : Text
  pub split_eq : split b'.' token ≡ part ∷ signature ∷ []
  pub part_eq : b64url part ≡ ok body
  pub signature_eq : b64url signature ≡ ok (h.sign body)

texts-ExactItems : (ts : List Text) → All (All IsScalar) ts → ExactItems (texts_items ts)
unfolding ExactItems
texts-ExactItems [] h = tt
texts-ExactItems (t ∷ ts) (ht, hs) = (unfold Exact in ht, texts-ExactItems ts hs)

-- The six keys differ.
claims-Exact :
    (s : Settings) (tenant : Text) (max_tok : ℤ) (models : List Text) (ttl now : ℤ)
    → All IsScalar tenant
    → All IsScalar s.default_pool
    → All (All IsScalar) (or_default models s.models)
    → Exact (claims s tenant max_tok models ttl now)
unfolding Exact ExactFields
claims-Exact s tenant max_tok models ttl now ht hp hm = (
  omega arith,
  ht,
  refl,
  (
    omega arith,
    hp,
    refl,
    (
      omega arith,
      texts-ExactItems (or_default models s.models) hm,
      refl,
      (omega arith, tt, refl, (omega arith, tt, refl, (omega arith, tt, refl, tt))),
    ),
  ),
)

-- Suppose that signatures are made of bytes and that the tenant, the pool and the models are Unicode
-- texts. Then a token that is minted splits at its one dot into two parts: the first decodes to
-- bytes that `json.loads` reads as the very claims that were asked for, and the second to the
-- signature over those bytes.
pub mint_capability-Readable :
    (h : Host) (s : Settings) (tenant : Text) (max_tok : ℤ) (models : List Text) (ttl : ℤ)
    (token : Text)
    → ((b : Bytes) → All IsByte (h.sign b))
    → All IsScalar tenant
    → All IsScalar s.default_pool
    → All (All IsScalar) (or_default models s.models)
    → mint_capability h s tenant max_tok models ttl ≡ ok token
    → Readable h (claims s tenant max_tok models ttl) token
unfolding mint_capability split
mint_capability-Readable h s tenant max_tok models ttl token signs ht hp hm x =
    let (now, en, x0) = >>=-eq-ok (h.floats.truncate h.now) _ x in
    let (body, eb, x1) =
      >>=-eq-ok (encode (dumps_compact h.floats (claims s tenant max_tok models ttl now))) _ x0 in
    let cut =
      split_onto-append (b64u body) (b64u (h.sign body)) (b64u-IsUndotted body)
      ∙ rw (split_onto_undotted (b64u (h.sign body)) (b64u-IsUndotted (h.sign body))) refl in
    record {
      now = now;
      now_eq = en;
      body = body;
      body_eq = eb;
      claims_eq =
          loads-dumps_compact h.floats (claims s tenant max_tok models ttl now) body
            (claims-Exact s tenant max_tok models ttl now ht hp hm) eb;
      part = b64u body;
      signature = b64u (h.sign body);
      split_eq = ap (split b'.') (sym (ok-injective _ token x1)) ∙ ap (λ p. p.0 ∷ p.1) cut;
      part_eq = b64url-b64u body (encode-IsByte _ body eb);
      signature_eq = b64url-b64u (h.sign body) (signs body);
    }
