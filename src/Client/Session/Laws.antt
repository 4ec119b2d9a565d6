-- ===== src/Client/Session/Laws.antt =====
-- From the methods of a client to the steps of the protocol.
use fidrouter.Base.{Text, List, [], ◌∷◌, ok, ◌≡◌, refl, ap, sym, ◌∙◌, subst, inl, inr, >>=-eq-ok}
use fidrouter.Text.Utf8.{encode}
use fidrouter.Json.{Json, as_text}
use fidrouter.Env.{Env}
use fidrouter.Exec.{after-cases, Keeps, Keeps-after, Keeps-bind, ok-injective}
use fidrouter.Client.State.{FidClient, Config, hex_or_empty, new_client, http_post}
use fidrouter.Client.Attest.{attest_and_verify}
use fidrouter.Client.Attest.Keeps.{
  posts, attest_and_verify-posts, SameSettings, attest_and_verify-SameSettings,
}
use fidrouter.Client.Infer.{prompt_bytes, infer, chat}
use fidrouter.Client.Infer.Messages.{split_messages}
use fidrouter.Client.Infer.Reply.{channel_key, seal}
use fidrouter.Client.Infer.Posts.{infer_sends}
use fidrouter.Client.Session.{
  Call, attesting, inferring, chatting, after_call, after_calls, Step, silent, inferred, chatted,
  Run, done, step,
}

SameSettings-trans : {o c s : FidClient} → SameSettings o c → SameSettings c s → SameSettings o s
SameSettings-trans h k = record {
  base_url = k.base_url ∙ h.base_url;
  token = k.token ∙ h.token;
  pin_measurement = k.pin_measurement ∙ h.pin_measurement;
  pin_idpub = k.pin_idpub ∙ h.pin_idpub;
  allow_unverified = k.allow_unverified ∙ h.allow_unverified;
  cs_audience = k.cs_audience ∙ h.cs_audience;
}

SameSettings-refl : (c : FidClient) → SameSettings c c
SameSettings-refl c = record {
  base_url = refl;
  token = refl;
  pin_measurement = refl;
  pin_idpub = refl;
  allow_unverified = refl;
  cs_audience = refl;
}

module _ (o : FidClient) where
  attest_and_verify-Keeps-settings : (env : Env) → Keeps (SameSettings o) (attest_and_verify env)
  attest_and_verify-Keeps-settings env c h =
      SameSettings-trans h (attest_and_verify-SameSettings env c)

  http_post-Keeps-settings :
      (env : Env) (url : Text) (body : Json) → Keeps (SameSettings o) (http_post env url body)
  unfolding http_post
  http_post-Keeps-settings env url body c h = record {
    base_url = h.base_url;
    token = h.token;
    pin_measurement = h.pin_measurement;
    pin_idpub = h.pin_idpub;
    allow_unverified = h.allow_unverified;
    cs_audience = h.cs_audience;
  }

  infer-Keeps-settings :
      (env : Env) (model prefix : Text) (suffix : Json)
      → Keeps (SameSettings o) (infer env model prefix suffix)
  unfolding infer
  infer-Keeps-settings env model prefix suffix =
      Keeps-bind (SameSettings o) (attest_and_verify env) _ (attest_and_verify-Keeps-settings env)
        λ q s h.
          Keeps-after (SameSettings o) (channel_key env q.ephemeral_pub) _
            (λ key. Keeps-after (SameSettings o) (prompt_bytes env model prefix suffix) _ λ inner.
              Keeps-after (SameSettings o) (as_text q.session) _ λ session.
                Keeps-after (SameSettings o) (encode session) _ λ aad.
                  Keeps-after (SameSettings o) (seal env key inner aad) _ λ sealed.
                    Keeps-bind (SameSettings o) (http_post env _ _) _
                      (http_post-Keeps-settings env _ _) λ answer t k. k)
            s h

  silent_of : {k : Call} {sent sent' : List (Text × Json)} → sent' ≡ sent → Step o k sent sent'
  silent_of {k} {sent} quiet = subst (Step o k sent) (sym quiet) silent

  after_call-Step :
      (k : Call) (c : FidClient)
      → SameSettings o c
      → Step o k (posts c.log) (posts (after_call k c).log)
  unfolding after_call chat
  after_call-Step (attesting env) c h = silent_of (attest_and_verify-posts env c)
  after_call-Step (inferring env model prefix suffix) c h =
      elim (infer_sends env c model prefix suffix) [
        | inl quiet ↦ silent_of quiet
        | inr post ↦ inferred c h refl post
      ]
  after_call-Step (chatting env model messages) c h =
      after-cases (λ out. Step o (chatting env model messages) (posts c.log) (posts out.1.log))
        (split_messages env.floats messages) (λ parts. infer env model parts.0 parts.1) c
        (λ e _. silent)
        λ parts split. elim (infer_sends env c model parts.0 parts.1) [
          | inl quiet ↦ silent_of quiet
          | inr post ↦ chatted c h refl split post
        ]

  after_call-Keeps-settings :
      (k : Call) (c : FidClient) → SameSettings o c → SameSettings o (after_call k c)
  unfolding after_call chat
  after_call-Keeps-settings (attesting env) c h = attest_and_verify-Keeps-settings env c h
  after_call-Keeps-settings (inferring env model prefix suffix) c h =
      infer-Keeps-settings env model prefix suffix c h
  after_call-Keeps-settings (chatting env model messages) c h =
      Keeps-after (SameSettings o) (split_messages env.floats messages)
        (λ parts. infer env model parts.0 parts.1)
        (λ parts. infer-Keeps-settings env model parts.0 parts.1) c h

  after_calls-Run :
      (ks : List Call) (c : FidClient)
      → SameSettings o c
      → SameSettings o (after_calls ks c) × Run o ks (posts c.log) (posts (after_calls ks c).log)
  unfolding after_calls
  after_calls-Run [] c h = (h, done)
  after_calls-Run (k ∷ ks) c h =
      let (kept, run) = after_calls-Run ks (after_call k c) (after_call-Keeps-settings k c h) in
      (kept, step (after_call-Step k c h) run)

-- A client starts with an empty log.
new_client-posts : (cfg : Config) (o : FidClient) → new_client cfg ≡ ok o → posts o.log ≡ []
unfolding new_client
new_client-posts cfg o h =
    let (pin, e, k) = >>=-eq-ok (hex_or_empty cfg.pin_idpub_hex) _ h in
    ap (λ c. posts c.log) (sym (ok-injective _ o k))

-- Take a client that the constructor made, and any sequence of calls on it, each of which may meet
-- another enclave and other answers, and may return or raise. What the client has then sent with a
-- body is a run of the abstract protocol over these calls: it started empty, an attestation added
-- nothing to it, and an `infer` or a `chat` nothing or exactly one request, its own prompt, sealed
-- under a key derived from a channel that was attested in that very call, to the address and with the
-- token that the client was made with. And those two, the pins, the permission for unverified quotes
-- and the audience are what they were made to be.
pub after_calls_refines :
    (cfg : Config) (o : FidClient) (ks : List Call)
    → new_client cfg ≡ ok o
    → SameSettings o (after_calls ks o) × Run o ks [] (posts (after_calls ks o).log)
after_calls_refines cfg o ks h =
    let (kept, run) = after_calls-Run o ks o (SameSettings-refl o) in
    (
      kept,
      subst (λ sent. Run o ks sent (posts (after_calls ks o).log)) (new_client-posts cfg o h) run,
    )
