-- ===== src/Client/Session.antt =====
-- A client over its lifetime: the calls that a program makes on one object, and the protocol that they
-- keep.
pub mod Laws
use fidrouter.Base.{Text, List, [], ◌∷◌, ok, ◌≡◌}
use fidrouter.Json.{Json}
use fidrouter.Env.{Env}
use fidrouter.Client.State.{FidClient}
use fidrouter.Client.Attest.{attest_and_verify}
use fidrouter.Client.Attest.Keeps.{posts, SameSettings}
use fidrouter.Client.Infer.{infer, chat}
use fidrouter.Client.Infer.Messages.{split_messages}
use fidrouter.Client.Infer.Posts.{SealedPost}

-- A call of a method, each in an environment of its own, with its own nonce and answers.
pub data Call : Type 0 where
  attesting : Env → Call
  inferring : Env → Text → Text → Json → Call
  chatting : Env → Text → List Json → Call

-- The object after a call that returned or raised, and after several, whatever became of each.
unfoldable pub after_call : Call → FidClient → FidClient
after_call (attesting env) c = (attest_and_verify env c).1
after_call (inferring env model prefix suffix) c = (infer env model prefix suffix c).1
after_call (chatting env model messages) c = (chat env model messages c).1

unfoldable pub after_calls : List Call → FidClient → FidClient
after_calls [] c = c
after_calls (k ∷ ks) c = after_calls ks (after_call k c)

-- The abstract protocol of an object that was made as `o`: a call adds nothing to what was sent with
-- a body, or else it asks for a completion and adds the one prompt, sealed in the call's own
-- environment to a channel that was attested there, to the address and with the token of `o`.
pub data Step (o : FidClient) : Call → List (Text × Json) → List (Text × Json) → Type 0 where
  silent : {k : Call} {sent : List (Text × Json)} → Step o k sent sent
  inferred :
      {sent sent' : List (Text × Json)} {env : Env} {model prefix : Text} {suffix : Json}
      (c : FidClient)
      → SameSettings o c
      → posts c.log ≡ sent
      → SealedPost env c model prefix suffix sent'
      → Step o (inferring env model prefix suffix) sent sent'
  chatted :
      {sent sent' : List (Text × Json)} {env : Env} {model prefix : Text} {suffix : Json}
      {messages : List Json} (c : FidClient)
      → SameSettings o c
      → posts c.log ≡ sent
      → split_messages env.floats messages ≡ ok (prefix, suffix)
      → SealedPost env c model prefix suffix sent'
      → Step o (chatting env model messages) sent sent'

pub data Run (o : FidClient) : List Call → List (Text × Json) → List (Text × Json) → Type 0 where
  done : {sent : List (Text × Json)} → Run o [] sent sent
  step :
      {k : Call} {ks : List Call} {sent sent' sent'' : List (Text × Json)}
      → Step o k sent sent'
      → Run o ks sent' sent''
      → Run o (k ∷ ks) sent sent''
