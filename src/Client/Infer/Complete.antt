-- ===== src/Client/Infer/Complete.antt =====
-- An honest enclave is not refused: what it must answer for `infer` to return.
use fidrouter.Base.{
  Text, Bytes, lit, true, [], ◌∷◌, ◌++◌, Result, ok, ◌>>=◌, same, same_iff, same_refl, ◌≡◌, refl,
  ap, sym, ◌∙◌, ◌⊎◌, inl, inr, Bool-cases,
}
use fidrouter.Text.Utf8.{encode}
use fidrouter.Text.Base64.{b64_decode}
use fidrouter.Json.{Json, str, item, as_text, is_text}
use fidrouter.Json.Loads.{loads}
use fidrouter.Env.{Env}
use fidrouter.Exec.{Returns}
use fidrouter.Receipt.Canonical.{canonical_receipt}
use fidrouter.Client.State.{FidClient, Channel, posted, http_post}
use fidrouter.Client.Binding.{bytes_item}
use fidrouter.Client.Attest.{attest_and_verify}
use fidrouter.Client.Infer.{prompt_bytes, request_body, infer}
use fidrouter.Client.Infer.Reply.{
  InferResult, channel_key, seal, open_sealed, receipt_key, check_receipt, read_result, check_reply,
}

module _ (env : Env) where
  -- Bytes that `json.loads` reads as an answer, in whatever order, spacing and escapes: with a receipt
  -- that the expected key has signed and that names the pinned measurement and the model, with a route,
  -- and with an answer that is sealed under the channel's key and holds the four values of the result.
  pub record HonestReply (c : FidClient) (q : Channel) (key aad : Bytes) (model : Text)
      (raw : Bytes) (r : InferResult) : Type 0 where
    pub out : Json
    pub raw_eq : loads env.floats raw ≡ ok out
    pub signed_receipt : Json
    pub signed_receipt_eq : item out (lit "receipt") ≡ ok signed_receipt
    pub receipt_eq : item signed_receipt (lit "receipt") ≡ ok r.receipt
    pub sig_b64 : Text
    pub sig_b64_eq : item signed_receipt (lit "sig") ≡ ok (str sig_b64)
    pub sig : Bytes
    pub sig_eq : b64_decode sig_b64 ≡ ok sig
    pub body : Bytes
    pub body_eq : canonical_receipt env.floats r.receipt ≡ ok body
    pub signed : env.ed25519_verify (receipt_key c q) sig body ≡ ok tt
    pub measured :
        (c.pin_measurement ≡ []) ⊎ (item r.receipt (lit "measurement") ≡ ok (str c.pin_measurement))
    pub named : item r.receipt (lit "model") ≡ ok (str model)
    pub model_eq : r.model ≡ str model
    pub route : Json
    pub route_eq : item out (lit "route") ≡ ok route
    pub account_eq : item route (lit "account") ≡ ok r.account
    pub affinity_eq : item route (lit "affinity") ≡ ok r.affinity
    pub sealed_b64 : Text
    pub sealed_b64_eq : item out (lit "sealed_resp") ≡ ok (str sealed_b64)
    pub sealed : Bytes
    pub sealed_eq : b64_decode sealed_b64 ≡ ok sealed
    pub plain : Bytes
    pub opened : open_sealed env key sealed aad ≡ ok plain
    pub ur : Json
    pub plain_eq : loads env.floats plain ≡ ok ur
    pub completion_eq : item ur (lit "completion") ≡ ok r.completion
    pub cache_hit_eq : item ur (lit "cache_hit") ≡ ok r.cache_hit
    pub prompt_tokens_eq : item ur (lit "prompt_tokens") ≡ ok r.prompt_tokens
    pub completion_tokens_eq : item ur (lit "completion_tokens") ≡ ok r.completion_tokens

  ok-then {ℓ κ} :
      {A : Type ℓ} {B : Type κ} (first : Result A) (next : A → Result B) (a : A)
      → first ≡ ok a
      → (first >>= next) ≡ next a
  ok-then {A = A} first next a e = ap (λ (x : Result A). x >>= next) e

  is_text_refl : (t : Text) → is_text (str t) t ≡ true
  unfolding is_text
  is_text_refl t = same_refl t

  check_receipt_complete :
      (c : FidClient) (q : Channel) (model : Text) (rec : Json) (sig body : Bytes)
      → canonical_receipt env.floats rec ≡ ok body
      → env.ed25519_verify (receipt_key c q) sig body ≡ ok tt
      → (c.pin_measurement ≡ []) ⊎ (item rec (lit "measurement") ≡ ok (str c.pin_measurement))
      → item rec (lit "model") ≡ ok (str model)
      → check_receipt env c q model rec sig ≡ ok tt
  unfolding check_receipt
  check_receipt_complete c q model rec sig body eb es hm en =
      elim (Bool-cases (same c.pin_measurement [])) [
        | inl unpinned ↦ rw (eb, es, unpinned, en, is_text_refl model) refl
        | inr pinned ↦ elim hm [
          | inl none_pinned ↦ absurd (cc (pinned, (same_iff c.pin_measurement []).1 none_pinned))
          | inr measured ↦
              rw (eb, es, pinned, measured, is_text_refl c.pin_measurement, en, is_text_refl model)
                refl
        ]
      ]

  read_result_complete :
      (c : FidClient) (q : Channel) (key aad : Bytes) (model : Text) (raw : Bytes) (r : InferResult)
      (h : HonestReply c q key aad model raw r)
      → read_result h.out r.receipt h.ur ≡ ok r
  unfolding read_result
  read_result_complete c q key aad model raw r h =
      rw
        (
          h.completion_eq, h.cache_hit_eq, h.named, h.route_eq, h.account_eq, h.affinity_eq,
          h.prompt_tokens_eq, h.completion_tokens_eq,
        )
        (ap (λ (named : Json). ok (record r { model = named })) (sym h.model_eq))

  text_bytes :
      (j : Json) (k s : Text) (b : Bytes)
      → item j k ≡ ok (str s)
      → b64_decode s ≡ ok b
      → bytes_item j k ≡ ok b
  unfolding bytes_item as_text
  text_bytes j k s b es eb = rw es eb

  check_reply_complete :
      (c : FidClient) (q : Channel) (key aad : Bytes) (model : Text) (raw : Bytes) (r : InferResult)
      → HonestReply c q key aad model raw r
      → check_reply env c q key aad model (200, raw) ≡ ok r
  unfolding check_reply
  check_reply_complete c q key aad model raw r h =
      let receipt_ok =
        check_receipt_complete c q model r.receipt h.sig h.body h.body_eq h.signed h.measured
          h.named in
      let sig_eq = text_bytes h.signed_receipt (lit "sig") h.sig_b64 h.sig h.sig_b64_eq h.sig_eq in
      let sealed_eq =
        text_bytes h.out (lit "sealed_resp") h.sealed_b64 h.sealed h.sealed_b64_eq h.sealed_eq in
      ok-then (loads env.floats raw) _ h.out h.raw_eq
      ∙ ok-then (item h.out (lit "receipt")) _ h.signed_receipt h.signed_receipt_eq
      ∙ ok-then (item h.signed_receipt (lit "receipt")) _ r.receipt h.receipt_eq
      ∙ ok-then _ _ h.sig
          (ok-then (item h.out (lit "receipt")) _ h.signed_receipt h.signed_receipt_eq ∙ sig_eq)
      ∙ ok-then (check_receipt env c q model r.receipt h.sig) _ tt receipt_ok
      ∙ ok-then (bytes_item h.out (lit "sealed_resp")) _ h.sealed sealed_eq
      ∙ ok-then (open_sealed env key h.sealed aad) _ h.plain h.opened
      ∙ ok-then (loads env.floats h.plain) _ h.ur h.plain_eq
      ∙ read_result_complete c q key aad model raw r h

  -- Suppose that an enclave was attested, that the prompt could be sealed for it, and that it answers
  -- with status 200 and an honest reply: bytes that `json.loads` reads as an object with a route and
  -- with a receipt that the expected key signed, whose canonical form can be made, and which names the
  -- pinned measurement, if one is pinned, and the model that was asked for; and in it a sealed answer
  -- that opens under the channel's key to bytes that `json.loads` reads as an object with a completion,
  -- the mark of the cache and the two counts of tokens. Then `infer` returns the result that is made of
  -- these very values, and what it did beside the attestation is the one request.
  pub infer_complete :
      (c s : FidClient) (q : Channel) (model prefix : Text) (suffix : Json) (session : Text)
      (key prompt aad sealed raw : Bytes) (r : InferResult)
      → Returns (attest_and_verify env) c q s
      → channel_key env q.ephemeral_pub ≡ ok key
      → prompt_bytes env model prefix suffix ≡ ok prompt
      → q.session ≡ str session
      → encode session ≡ ok aad
      → seal env key prompt aad ≡ ok sealed
      → env.post
          (s.base_url ++ lit "/v1/infer")
          (request_body session (env.x25519_public env.x25519_private) s.token sealed)
        ≡ ok (200, raw)
      → HonestReply s q key aad model raw r
      → Returns (infer env model prefix suffix) c r (record s {
        log =
            s.log
            ++ posted
                (s.base_url ++ lit "/v1/infer")
                (request_body session (env.x25519_public env.x25519_private) s.token sealed)
              ∷ [];
      })
  unfolding infer http_post
  infer_complete c s q model prefix suffix session key prompt aad sealed raw r ea ek ep es ed el
        epost honest =
      let done = check_reply_complete s q key aad model raw r honest in
      let et : as_text q.session ≡ ok session = ap as_text es ∙ unfold as_text in refl in
      rw (ea, ek, ep, et, ed, el, epost, done) refl
