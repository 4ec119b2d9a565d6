-- ===== src/Client/Infer.antt =====
-- `infer` and `chat`: attest, seal the prompt, send it, and verify the signed receipt.
pub mod Messages
pub mod Reply
pub mod Laws
pub mod Posts
pub mod Complete
use fidrouter.Base.{
  ℕ, Text, Bytes, lit, Bool, true, false, List, [], ◌∷◌, ◌++◌, Result, ok, err, verification, guard,
  same, ◌==◌, if◌then◌else◌,
}
use fidrouter.Text.Base64.{b64_encode}
use fidrouter.Text.Utf8.{encode}
use fidrouter.Json.{Json, str, obj, end, field, as_text}
use fidrouter.Json.Dump.{dumps}
use fidrouter.Env.{Env}
use fidrouter.Exec.{Exec, pure, lift, gets, ◌>>=◌, ◌>>◌}
use fidrouter.Client.State.{FidClient, Channel, http_post}
use fidrouter.Client.Attest.{attest_and_verify}
use Messages.{split_messages}
use Reply.{InferResult, channel_key, seal, check_reply}

-- The prompt: `json.dumps({"model": …, "prefix": …, "suffix": …}).encode()`
unfoldable pub prompt_bytes : Env → Text → Text → Json → Result Bytes
prompt_bytes env model prefix suffix = encode (
    dumps env.floats (
      obj (
        field (lit "model") (str model)
          (field (lit "prefix") (str prefix) (field (lit "suffix") suffix end)))))

-- The body of the request; the session is one that could be used as a text.
unfoldable pub request_body : Text → Bytes → Text → Bytes → Json
request_body session cpub token sealed = obj (
    field (lit "session") (str session) (
      field (lit "client_pub") (str (b64_encode cpub))
        (field (lit "token") (str token) (field (lit "sealed") (str (b64_encode sealed)) end))))

unfoldable pub infer : Env → Text → Text → Json → Exec FidClient InferResult
infer env model prefix suffix = do
  q ← attest_and_verify env
  c ← gets (λ c. c)
  key ← lift (channel_key env q.ephemeral_pub)
  inner ← lift (prompt_bytes env model prefix suffix)
  session ← lift (as_text q.session)
  aad ← lift (encode session)
  sealed ← lift (seal env key inner aad)
  answer ←
      http_post env (c.base_url ++ lit "/v1/infer")
        (request_body session (env.x25519_public env.x25519_private) c.token sealed)
  lift (check_reply env c q key aad model answer)

unfoldable pub chat : Env → Text → List Json → Exec FidClient InferResult
unfolding infer split_messages
chat env model messages = do
  parts ← lift (split_messages env.floats messages)
  infer env model parts.0 parts.1
