-- ===== src/Sdk/Completion.antt =====
-- The completion that sdk/python/fid.py returns, in the shape of the other library, and the call that
-- makes it.
pub mod Laws
use fidrouter.Base.{ℕ, Text, lit, Bool, true, List, [], ◌∷◌, Result, ok, ◌>>=◌}
use fidrouter.Json.{Json, str, get_or}
use fidrouter.Json.Plus.{plus}
use fidrouter.Env.{Env}
use fidrouter.Exec.{Exec, after}
use fidrouter.Client.State.{FidClient}
use fidrouter.Client.Infer.{chat}
use fidrouter.Client.Infer.Reply.{InferResult}

pub record ReplyMessage : Type 0 where
  pub role : Text
  pub content : Json

pub record Choice : Type 0 where
  pub index : ℕ
  pub message : ReplyMessage
  pub finish_reason : Text

pub record Usage : Type 0 where
  pub prompt_tokens : Json
  pub completion_tokens : Json
  pub total_tokens : Json

-- `_Fid`
pub record Proof : Type 0 where
  pub verified : Bool
  pub measurement : Json
  pub account : Json
  pub cache_hit : Json
  pub receipt : Json

pub record ChatCompletion : Type 0 where
  pub object : Text
  pub model : Text
  pub choices : List Choice
  pub usage : Usage
  pub fid : Proof

abbrev pub message_of : Json → ReplyMessage
message_of content = record { role = lit "assistant"; content = content }

abbrev pub choice_of : Json → Choice
choice_of content = record { index = 0; message = message_of content; finish_reason = lit "stop" }

unfoldable pub usage_of : Env → Json → Json → Result Usage
usage_of env p c = do
  total ← plus env.floats p c
  ok (record { prompt_tokens = p; completion_tokens = c; total_tokens = total })

unfoldable pub proof_of : InferResult → Result Proof
proof_of res = do
  measurement ← get_or res.receipt (lit "measurement") (str [])
  ok (record {
    verified = true;
    measurement = measurement;
    account = res.account;
    cache_hit = res.cache_hit;
    receipt = res.receipt;
  })

-- `ChatCompletion(res, model)`
unfoldable pub chat_completion : Env → InferResult → Text → Result ChatCompletion
unfolding usage_of proof_of
chat_completion env res model = do
  usage ← usage_of env res.prompt_tokens res.completion_tokens
  fid ← proof_of res
  ok (record {
    object = lit "chat.completion";
    model = model;
    choices = choice_of res.completion ∷ [];
    usage = usage;
    fid = fid;
  })

-- `create(model, messages)`
unfoldable pub create : Env → Text → List Json → Exec FidClient ChatCompletion
unfolding chat_completion
create env model messages c =
    after (chat env model messages c).0 (λ res s. (chat_completion env res model, s))
      (chat env model messages c).1
