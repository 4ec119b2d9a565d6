-- ===== src/Client/Infer/Laws.antt =====
-- What a returned completion proves.
use mathlib.Core.Path.{subst₂}
use fidrouter.Base.{ℕ, Text, Bytes, lit, ◌++◌, ok, ◌≡◌, ap, ◌∙◌, sym, subst}
use fidrouter.Text.Utf8.{encode}
use fidrouter.Json.{Json, str, as_text}
use fidrouter.Json.Laws.{as_text-eq}
use fidrouter.Env.{Env}
use fidrouter.Exec.{Returns, bind-Returns, lift-Returns, ok-injective}
use fidrouter.Client.State.{FidClient, Channel, http_post}
use fidrouter.Client.Attest.{attest_and_verify}
use fidrouter.Client.Attest.Keeps.{SameSettings, attest_and_verify-SameSettings}
use fidrouter.Client.Attest.Laws.{Verified, asked, attest_and_verify_sound}
use fidrouter.Client.Infer.{prompt_bytes, request_body, infer}
use fidrouter.Client.Infer.Reply.{InferResult, channel_key, seal}
use fidrouter.Client.Infer.Reply.Laws.{
  Answered, read_result-receipt, check_reply_sound, Answered-SameSettings,
}

module _ (env : Env) where
  -- What stands behind a completion.
  pub record Completed (c : FidClient) (model prefix : Text) (suffix : Json) (r : InferResult)
      : Type 0 where
    pub channel : Channel
    pub attested : Verified env (asked env c) channel
    pub key : Bytes
    pub key_eq : channel_key env channel.ephemeral_pub ≡ ok key
    pub prompt : Bytes
    pub prompt_eq : prompt_bytes env model prefix suffix ≡ ok prompt
    pub session : Text
    pub session_eq : channel.session ≡ str session
    pub aad : Bytes
    pub aad_eq : encode session ≡ ok aad
    pub sealed : Bytes
    pub sealed_eq : seal env key prompt aad ≡ ok sealed
    pub answer : ℕ × Bytes
    pub posted_eq :
        env.post
          (c.base_url ++ lit "/v1/infer")
          (request_body session (env.x25519_public env.x25519_private) c.token sealed)
        ≡ ok answer
    pub answered : Answered env c channel key aad model answer r
    pub named : r.model ≡ str model

  pub settings_after :
      (c s : FidClient) (q : Channel) → Returns (attest_and_verify env) c q s → SameSettings c s
  settings_after c s q h =
      subst (SameSettings c) (ap (λ p. p.1) h) (attest_and_verify-SameSettings env c)

  -- A completion is returned only over a channel that was attested, for a prompt that was sealed
  -- under a key that is derived from the channel's attested key, with an answer of status 200 whose
  -- receipt is signed by the pinned identity key (by the attested one if none is pinned), names the
  -- pinned measurement, if one is pinned, and names the very model that was asked for.
  pub infer_sound :
      (c c' : FidClient) (model prefix : Text) (suffix : Json) (r : InferResult)
      → Returns (infer env model prefix suffix) c r c'
      → Completed c model prefix suffix r
  unfolding infer http_post
  infer_sound c c' model prefix suffix r h =
      let (q, s, ea, h0) = bind-Returns (attest_and_verify env) _ c h in
      let (key, ek, h1) = lift-Returns (channel_key env q.ephemeral_pub) _ s h0 in
      let (inner, ei, h2) = lift-Returns (prompt_bytes env model prefix suffix) _ s h1 in
      let (session, es, h3) = lift-Returns (as_text q.session) _ s h2 in
      let (aad, ed, h4) = lift-Returns (encode session) _ s h3 in
      let (sealed, el, h5) = lift-Returns (seal env key inner aad) _ s h4 in
      let (answer, s', ep, h6) = bind-Returns (http_post env _ _) _ s h5 in
      let a = check_reply_sound env s q key aad model answer r (ap (λ p. p.0) h6) in
      let named = (read_result-receipt env a.out r.receipt a.ur r a.result).1 in
      let set = settings_after c s q ea in
      record {
        channel = q;
        attested = attest_and_verify_sound env c s q ea;
        key = key;
        key_eq = ek;
        prompt = inner;
        prompt_eq = ei;
        session = session;
        session_eq = as_text-eq q.session session es;
        aad = aad;
        aad_eq = ed;
        sealed = sealed;
        sealed_eq = el;
        answer = answer;
        posted_eq =
            subst₂
              (λ u t.
                env.post (u ++ lit "/v1/infer")
                  (request_body session (env.x25519_public env.x25519_private) t sealed)
                ≡ ok answer)
              set.base_url set.token (ap (λ p. p.0) ep);
        answered = Answered-SameSettings env set a;
        named = ok-injective _ _ (sym named ∙ a.receipt_checked.model_eq);
      }
