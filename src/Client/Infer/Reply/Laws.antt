-- ===== src/Client/Infer/Reply/Laws.antt =====
-- What an answer of the server must hold for a result to be made of it.
use fidrouter.Base.{
  ℕ, Text, Bytes, lit, Bool, true, false, not, ◌&&◌, Option, none, some, List, [], ◌∷◌, ◌++◌,
  append-nil, Result, ok, err, Error, guard, refuse, guard-eq-ok, refuse-eq-ok, >>=-eq-ok, same,
  same_iff, Bool-cases, ◌==◌, ==_iff, ◌≡◌, refl, ap, ◌∙◌, sym, subst, ◌⊎◌, inl, inr, if◌then◌else◌,
  pos,
}
use fidrouter.Base
use fidrouter.Json.{Json, str, item, is_text}
use fidrouter.Json.Laws.{is_text-eq, pinned-eq}
use fidrouter.Json.Loads.{loads}
use fidrouter.Env.{Env}
use fidrouter.Exec.{ok-injective}
use fidrouter.Receipt.Canonical.{canonical_receipt}
use fidrouter.Quote.Token.{signature_error}
use fidrouter.Quote.TrustAuthority.Laws.{signature_error-eq-ok}
use fidrouter.Client.State.{FidClient, Channel}
use fidrouter.Client.Binding.{bytes_item}
use fidrouter.Client.Attest.Keeps.{SameSettings}
use fidrouter.Client.Infer.Reply.{
  InferResult, open_sealed, receipt_key, check_receipt, read_result, check_reply,
}

module _ (env : Env) where
  -- The receipt of a completion.
  pub record ReceiptChecked (c : FidClient) (q : Channel) (model : Text) (rec : Json) : Type 0 where
    pub sig : Bytes
    pub body : Bytes
    pub body_eq : canonical_receipt env.floats rec ≡ ok body
    pub signed : env.ed25519_verify (receipt_key c q) sig body ≡ ok tt
    pub model_eq : item rec (lit "model") ≡ ok (str model)
    pub measurement_pinned :
        (c.pin_measurement ≡ []) ⊎ (item rec (lit "measurement") ≡ ok (str c.pin_measurement))

  measured :
      (pin : Text) (rec m : Json)
      → (if same pin [] then ok rec else item rec (lit "measurement")) ≡ ok m
      → (not (same pin []) && not (is_text m pin)) ≡ false
      → (pin ≡ []) ⊎ (item rec (lit "measurement") ≡ ok (str pin))
  measured pin rec m h k = elim (Bool-cases (same pin [])) [
    | inl unpinned ↦ inl ((same_iff pin []).0 unpinned)
    | inr pinned ↦ elim (pinned-eq pin m k) [
      | inl e ↦ inl e
      | inr e ↦ inr ((rw pinned at h) ∙ ap ok e)
    ]
  ]

  check_receipt_sound :
      (c : FidClient) (q : Channel) (model : Text) (rec : Json) (sig : Bytes)
      → check_receipt env c q model rec sig ≡ ok tt
      → ReceiptChecked c q model rec
  unfolding check_receipt
  check_receipt_sound c q model rec sig h =
      let (_, es, h0) =
        >>=-eq-ok
          (signature_error _ (
            Base.◌>>=◌ (canonical_receipt env.floats rec)
              (λ body. env.ed25519_verify (receipt_key c q) sig body)))
          _ h in
      let (m, em, h1) =
        >>=-eq-ok (if same c.pin_measurement [] then ok rec else item rec (lit "measurement")) _
          h0 in
      let (_, ep, h2) =
        >>=-eq-ok (refuse (not (same c.pin_measurement []) && not (is_text m c.pin_measurement)) _)
          _ h1 in
      let (named, en, h3) = >>=-eq-ok (item rec (lit "model")) _ h2 in
      let (body, eb, ev) =
        >>=-eq-ok (canonical_receipt env.floats rec) _ (signature_error-eq-ok _ _ es) in
      record {
        sig = sig;
        body = body;
        body_eq = eb;
        signed = ev;
        model_eq = en ∙ ap ok (is_text-eq named model (guard-eq-ok _ _ h3));
        measurement_pinned = measured c.pin_measurement rec m em (refuse-eq-ok _ _ ep);
      }

  pub read_result-receipt :
      (out rec ur : Json) (r : InferResult)
      → read_result out rec ur ≡ ok r
      → (r.receipt ≡ rec) × (item rec (lit "model") ≡ ok r.model)
  unfolding read_result
  read_result-receipt out rec ur r h =
      let (_, _, h0) = >>=-eq-ok (item ur (lit "completion")) _ h in
      let (_, _, h1) = >>=-eq-ok (item ur (lit "cache_hit")) _ h0 in
      let (m, em, h2) = >>=-eq-ok (item rec (lit "model")) _ h1 in
      let (_, _, h3) =
        >>=-eq-ok (Base.◌>>=◌ (item out (lit "route")) (λ route. item route (lit "account"))) _
          h2 in
      let (_, _, h4) =
        >>=-eq-ok (Base.◌>>=◌ (item out (lit "route")) (λ route. item route (lit "affinity"))) _
          h3 in
      let (_, _, h5) = >>=-eq-ok (item ur (lit "prompt_tokens")) _ h4 in
      let (_, _, h6) = >>=-eq-ok (item ur (lit "completion_tokens")) _ h5 in
      let e = ok-injective _ r h6 in (sym (ap (λ t. t.receipt) e), em ∙ ap ok (ap (λ t. t.model) e))

  -- The answer of the server, from which a result was made.
  pub record Answered (c : FidClient) (q : Channel) (key aad : Bytes) (model : Text)
      (answer : ℕ × Bytes) (r : InferResult) : Type 0 where
    pub status : answer.0 ≡ 200
    pub out : Json
    pub out_eq : loads env.floats answer.1 ≡ ok out
    pub receipt_checked : ReceiptChecked c q model r.receipt
    pub sealed : Bytes
    pub sealed_eq : bytes_item out (lit "sealed_resp") ≡ ok sealed
    pub plain : Bytes
    pub opened : open_sealed env key sealed aad ≡ ok plain
    pub ur : Json
    pub ur_eq : loads env.floats plain ≡ ok ur
    pub result : read_result out r.receipt ur ≡ ok r

  pub check_reply_sound :
      (c : FidClient) (q : Channel) (key aad : Bytes) (model : Text) (answer : ℕ × Bytes)
      (r : InferResult)
      → check_reply env c q key aad model answer ≡ ok r
      → Answered c q key aad model answer r
  unfolding check_reply
  check_reply_sound c q key aad model (status, raw) r h =
      let (_, gs, h0) = >>=-eq-ok (guard (status == 200) _) _ h in
      let (out, eo, h1) = >>=-eq-ok (loads env.floats raw) _ h0 in
      let (signed, _, h2) = >>=-eq-ok (item out (lit "receipt")) _ h1 in
      let (rec, _, h3) = >>=-eq-ok (item signed (lit "receipt")) _ h2 in
      let (sig, _, h4) =
        >>=-eq-ok (Base.◌>>=◌ (item out (lit "receipt")) (λ again. bytes_item again (lit "sig"))) _
          h3 in
      let (_, ec, h5) = >>=-eq-ok (check_receipt env c q model rec sig) _ h4 in
      let (sealed, el, h6) = >>=-eq-ok (bytes_item out (lit "sealed_resp")) _ h5 in
      let (plain, ep, h7) = >>=-eq-ok (open_sealed env key sealed aad) _ h6 in
      let (ur, eu, h8) = >>=-eq-ok (loads env.floats plain) _ h7 in
      let e : rec ≡ r.receipt = sym (read_result-receipt out rec ur r h8).0 in
      record {
        status = (==_iff status 200).0 (guard-eq-ok _ _ gs);
        out = out;
        out_eq = eo;
        receipt_checked =
            subst (ReceiptChecked c q model) e (check_receipt_sound c q model rec sig ec);
        sealed = sealed;
        sealed_eq = el;
        plain = plain;
        opened = ep;
        ur = ur;
        ur_eq = eu;
        result = subst (λ j. read_result out j ur ≡ ok r) e h8;
      }

  same_key : {c s : FidClient} (q : Channel) → SameSettings c s → receipt_key s q ≡ receipt_key c q
  same_key q same_settings =
      ap (λ pin. if same pin [] then q.identity_pub else pin) same_settings.pin_idpub

  ReceiptChecked-SameSettings :
      {c s : FidClient} {q : Channel} {model : Text} {rec : Json}
      → SameSettings c s
      → ReceiptChecked s q model rec
      → ReceiptChecked c q model rec
  ReceiptChecked-SameSettings {c} {s} {q} {rec} h r = record {
    sig = r.sig;
    body = r.body;
    body_eq = r.body_eq;
    signed = subst (λ k. env.ed25519_verify k r.sig r.body ≡ ok tt) (same_key q h) r.signed;
    model_eq = r.model_eq;
    measurement_pinned =
        subst (λ p. (p ≡ []) ⊎ (item rec (lit "measurement") ≡ ok (str p))) h.pin_measurement
          r.measurement_pinned;
  }

  pub Answered-SameSettings :
      {c s : FidClient} {q : Channel} {key aad : Bytes} {model : Text} {answer : ℕ × Bytes}
      {r : InferResult}
      → SameSettings c s
      → Answered s q key aad model answer r
      → Answered c q key aad model answer r
  Answered-SameSettings h a = record {
    status = a.status;
    out = a.out;
    out_eq = a.out_eq;
    receipt_checked = ReceiptChecked-SameSettings h a.receipt_checked;
    sealed = a.sealed;
    sealed_eq = a.sealed_eq;
    plain = a.plain;
    opened = a.opened;
    ur = a.ur;
    ur_eq = a.ur_eq;
    result = a.result;
  }
