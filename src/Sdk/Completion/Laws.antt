-- ===== src/Sdk/Completion/Laws.antt =====
-- A completion that carries its proof was verified.
use fidrouter.Base.{lit, Text, List, [], ◌∷◌, ok, >>=-eq-ok, ◌≡◌, sym, ap, ◌∙◌}
use fidrouter.Json.Plus.{plus}
use fidrouter.Json.{Json, str, get_or}
use fidrouter.Env.{Env}
use fidrouter.Exec.{Returns, lift-Returns, after-Returns, ok-injective}
use fidrouter.Client.State.{FidClient}
use fidrouter.Client.Infer.{chat}
use fidrouter.Client.Infer.Messages.{split_messages}
use fidrouter.Client.Infer.Reply.{InferResult}
use fidrouter.Client.Infer.Laws.{Completed, infer_sound}
use fidrouter.Sdk.Completion.{
  Usage, Proof, ChatCompletion, choice_of, usage_of, proof_of, chat_completion, create,
}

-- A completion with the run of `infer` behind it.
pub record Proved (env : Env) (c : FidClient) (model : Text) (messages : List Json)
    (out : ChatCompletion) : Type 0 where
  pub result : InferResult
  pub prefix : Text
  pub suffix : Json
  pub split_eq : split_messages env.floats messages ≡ ok (prefix, suffix)
  pub completed : Completed env c model prefix suffix result
  pub choices_eq : out.choices ≡ choice_of result.completion ∷ []
  pub total_eq :
      plus env.floats result.prompt_tokens result.completion_tokens ≡ ok out.usage.total_tokens
  pub receipt_eq : out.fid.receipt ≡ result.receipt
  pub model_eq : result.model ≡ str out.model

pub chat-Completed :
    (env : Env) (c s : FidClient) (model : Text) (messages : List Json) (r : InferResult)
    → Returns (chat env model messages) c r s
    → (prefix : Text) × (suffix : Json) × (split_messages env.floats messages ≡ ok (prefix, suffix))
      × Completed env c model prefix suffix r
unfolding chat
chat-Completed env c s model messages r h =
    let ((prefix, suffix), es, h1) = lift-Returns (split_messages env.floats messages) _ c h in
    (prefix, suffix, es, infer_sound env c s model prefix suffix r h1)

chat_completion-Proved :
    (env : Env) (c : FidClient) (model : Text) (messages : List Json) (r : InferResult)
    (out : ChatCompletion) (prefix : Text) (suffix : Json)
    → split_messages env.floats messages ≡ ok (prefix, suffix)
    → Completed env c model prefix suffix r
    → chat_completion env r model ≡ ok out
    → Proved env c model messages out
unfolding chat_completion usage_of proof_of
chat_completion-Proved env c model messages r out prefix suffix split completed h =
    let (usage, eu, h1) = >>=-eq-ok (usage_of env r.prompt_tokens r.completion_tokens) _ h in
    let (total, et, eu') = >>=-eq-ok (plus env.floats r.prompt_tokens r.completion_tokens) _ eu in
    let (fid, ef, h2) = >>=-eq-ok (proof_of r) _ h1 in
    let (m, _, ef') = >>=-eq-ok (get_or r.receipt (lit "measurement") (str [])) _ ef in
    let same_fid = ok-injective _ fid ef' in
    let same_usage = ok-injective _ usage eu' in
    let same_out = ok-injective _ out h2 in
    record {
      result = r;
      prefix = prefix;
      suffix = suffix;
      split_eq = split;
      completed = completed;
      choices_eq = sym (ap (λ (o : ChatCompletion). o.choices) same_out);
      total_eq =
          et
          ∙ ap (λ (u : Usage). ok u.total_tokens) same_usage
          ∙ ap (λ (o : ChatCompletion). ok o.usage.total_tokens) same_out;
      receipt_eq =
          sym (ap (λ (o : ChatCompletion). o.fid.receipt) same_out)
          ∙ sym (ap (λ (p : Proof). p.receipt) same_fid);
      model_eq = completed.named ∙ ap (λ (o : ChatCompletion). str o.model) same_out;
    }

-- A completion that `create` returns has a verified run of `infer` behind it, over the prompt that the
-- messages make: its one choice is the text of that run, its receipt is the signed one, which names
-- the model of the completion, and its total is the sum of the two counts of tokens.
pub create-Proved :
    (env : Env) (c s : FidClient) (model : Text) (messages : List Json) (out : ChatCompletion)
    → Returns (create env model messages) c out s
    → Proved env c model messages out
unfolding create
create-Proved env c s model messages out h =
    let t = (chat env model messages c).1 in
    let (r, er, h1) = after-Returns (chat env model messages c).0 _ t h in
    let (prefix, suffix, split, completed) =
      chat-Completed env c t model messages r λ i. (er i, t) in
    chat_completion-Proved env c model messages r out prefix suffix split completed
      (ap (λ p. p.0) h1)
