-- ===== src/Client/Infer/Posts.antt =====
-- What a call may send, before and after the attestation, on each of its ways out.
use fidrouter.Base.{Text, Bytes, lit, List, [], ◌∷◌, ◌++◌, Result, ok, ◌≡◌, ap₂, ◌∙◌, ◌⊎◌, inl, inr}
use fidrouter.Text.Utf8.{encode}
use fidrouter.Json.{Json, str, as_text}
use fidrouter.Json.Laws.{as_text-eq}
use fidrouter.Env.{Env}
use fidrouter.Exec.{after-cases, Returns}
use fidrouter.Client.State.{FidClient, Channel, posted, http_post}
use fidrouter.Client.Attest.{attest_and_verify}
use fidrouter.Client.Attest.Keeps.{posts, posts-append, attest_and_verify-posts}
use fidrouter.Client.Attest.Laws.{Verified, asked, attest_and_verify_sound}
use fidrouter.Client.Infer.{prompt_bytes, request_body, infer}
use fidrouter.Client.Infer.Reply.{InferResult, channel_key, seal}
use fidrouter.Client.Infer.Laws.{settings_after}

module _ (env : Env) where
  -- The one request with a body that a call may send: the prompt, sealed under a key that is derived
  -- from the key of a channel that was attested before.
  pub record SealedPost (c : FidClient) (model prefix : Text) (suffix : Json)
      (sent : List (Text × Json)) : Type 0 where
    pub channel : Channel
    pub attested : Verified env (asked env c) channel
    pub key : Bytes
    pub key_eq : channel_key env channel.ephemeral_pub ≡ ok key
    pub prompt : Bytes
    pub prompt_eq : prompt_bytes env model prefix suffix ≡ ok prompt
    pub session : Text
    pub session_eq : channel.session ≡ str session
    pub aad : Bytes
    pub aad_eq : encode session ≡ ok aad
    pub sealed : Bytes
    pub sealed_eq : seal env key prompt aad ≡ ok sealed
    pub sent_eq :
        sent
        ≡ posts c.log
          ++ ((
            c.base_url ++ lit "/v1/infer",
            request_body session (env.x25519_public env.x25519_private) c.token sealed,
          )
              ∷ [])

module _ (env : Env) (c : FidClient) (model prefix : Text) (suffix : Json) where
  -- What a call may have sent by the time it returns or raises.
  abbrev pub Discreet : Result InferResult × FidClient → Type 0
  Discreet out =
      (posts out.1.log ≡ posts c.log) ⊎ SealedPost env c model prefix suffix (posts out.1.log)

  -- Whether a call of `infer` returns or raises, it has sent nothing that carries a body, or exactly
  -- one request: to the enclave's inference path, with the prompt sealed under a key derived from the
  -- channel's key, of a channel that was attested before.
  pub infer_sends : Discreet (infer env model prefix suffix c)
  unfolding infer http_post
  infer_sends =
      let quiet = attest_and_verify-posts env c in
      after-cases Discreet (attest_and_verify env c).0 _ (attest_and_verify env c).1
        (λ e _. inl quiet)
        λ q eq.
          let s = (attest_and_verify env c).1 in
          let attested : Returns (attest_and_verify env) c q s = λ i. (eq i, s) in
          let set = settings_after env c s q attested in
          after-cases Discreet (channel_key env q.ephemeral_pub) _ s (λ e _. inl quiet)
            λ key ek.
              after-cases Discreet (prompt_bytes env model prefix suffix) _ s (λ e _. inl quiet)
                λ inner ei.
                  after-cases Discreet (as_text q.session) _ s (λ e _. inl quiet)
                    λ session es.
                      after-cases Discreet (encode session) _ s (λ e _. inl quiet)
                        λ aad ed.
                          after-cases Discreet (seal env key inner aad) _ s (λ e _. inl quiet)
                            λ sealed el.
                              let post : SealedPost env c model prefix suffix (
                                  posts (
                                    s.log
                                    ++ posted (s.base_url ++ lit "/v1/infer") (
                                        request_body session (env.x25519_public env.x25519_private)
                                          s.token sealed)
                                      ∷ [])) =
                                record {
                                  channel = q;
                                  attested = attest_and_verify_sound env c s q attested;
                                  key = key;
                                  key_eq = ek;
                                  prompt = inner;
                                  prompt_eq = ei;
                                  session = session;
                                  session_eq = as_text-eq q.session session es;
                                  aad = aad;
                                  aad_eq = ed;
                                  sealed = sealed;
                                  sealed_eq = el;
                                  sent_eq =
                                      posts-append s.log _
                                      ∙ ap₂ (λ l p. l ++ p ∷ []) quiet
                                          (ap₂
                                            (λ u t. (
                                              u ++ lit "/v1/infer",
                                              request_body session
                                                  (env.x25519_public env.x25519_private) t sealed,
                                            ))
                                            set.base_url set.token);
                                } in
                              after-cases Discreet (env.post _ _) _ _ (λ e _. inr post)
                                (λ answer _. inr post)
