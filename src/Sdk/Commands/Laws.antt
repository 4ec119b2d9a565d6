-- ===== src/Sdk/Commands/Laws.antt =====
-- What stands behind a completion that the command line prints.
use fidrouter.Base.{
  Text, ℕ, lit, [], ◌∷◌, Result, ok, err, unfollowed, false, >>=-eq-ok, if-cases, ◌≡◌, refl, subst,
  sym, ap, ◌∙◌, ◌⊎◌, inl, inr, if◌then◌else◌,
}
use fidrouter.Text.Strip.{rstrip}
use fidrouter.Json.{Json, null, bool, num, real, str, arr, obj, get, get_or, item, as_text, truthy}
use fidrouter.Json.Laws.{as_text-eq}
use fidrouter.Env.{Env}
use fidrouter.Exec.{ok-injective}
use fidrouter.Client.State.{FidClient, new_client}
use fidrouter.Client.Infer.{chat}
use fidrouter.Client.Infer.Messages.{split_messages}
use fidrouter.Client.Infer.Reply.{InferResult}
use fidrouter.Client.Infer.Laws.{Completed}
use fidrouter.Sdk.Completion.Laws.{chat-Completed}
use fidrouter.Sdk.Commands.{
  exchange, call_config, pin_text, token_text, user_message, verified_call, answered, outcome_of,
  call_with, cmd_call,
}

token_text-eq : (tok : Json) (token : Text) → token_text tok ≡ ok token → tok ≡ str token
unfolding token_text
token_text-eq (str s) token h = ap str (ok-injective s token h)
token_text-eq null token h = absurd (cc h)
token_text-eq (bool b) token h = absurd (cc h)
token_text-eq (num i) token h = absurd (cc h)
token_text-eq (real w) token h = absurd (cc h)
token_text-eq (arr xs) token h = absurd (cc h)
token_text-eq (obj fs) token h = absurd (cc h)

falsy :
    (expected : Json) (pin : Text)
    → ◌≡◌ {A = Result Text} (if truthy expected then err unfollowed else ok []) (ok pin)
    → (expected ≡ str pin) ⊎ (truthy expected ≡ false) × (pin ≡ [])
falsy expected pin h = elim (if-cases (truthy expected) _ _ h) [
  | inl (_, e) ↦ absurd (cc e)
  | inr (false_too, e) ↦ inr (false_too, sym (ok-injective _ pin e))
]

-- The pin is the text that is expected; of an expected value that is false, such as `null`, it is empty,
-- and nothing is pinned.
abbrev pub Pin : Json → Text → Type 0
Pin expected pin = (expected ≡ str pin) ⊎ (truthy expected ≡ false) × (pin ≡ [])

pin_text-Pin : (expected : Json) (pin : Text) → pin_text expected ≡ ok pin → Pin expected pin
unfolding pin_text
pin_text-Pin (str s) pin h = inl (ap str (ok-injective s pin h))
pin_text-Pin null pin h = inr (unfold truthy in refl, sym (ok-injective _ pin h))
pin_text-Pin (bool b) pin h = falsy (bool b) pin h
pin_text-Pin (num i) pin h = falsy (num i) pin h
pin_text-Pin (real w) pin h = falsy (real w) pin h
pin_text-Pin (arr xs) pin h = falsy (arr xs) pin h
pin_text-Pin (obj fs) pin h = falsy (obj fs) pin h

-- The run of `infer` behind a printed completion, by a client that is configured by the answer of the
-- exchange.
pub record CallProved (env : Env) (platform : Text) (endpoint : ℕ) (key model message : Text)
    (j : Json) : Type 0 where
  pub ex : Json
  pub exchange_eq : exchange env platform endpoint key ≡ ok ex
  pub token : Text
  pub token_eq : get ex (lit "capability_token") ≡ ok (str token)
  pub url : Text
  pub url_eq : item ex (lit "enclave_url") ≡ ok (str url)
  pub expected : Json
  pub expected_eq : get_or ex (lit "expected_measurement") (str []) ≡ ok expected
  pub pin : Text
  pub pin_eq : Pin expected pin
  pub client : FidClient
  pub client_eq : new_client (call_config (rstrip b'/' url) token pin) ≡ ok client
  pub result : InferResult
  pub completed : Completed env client model [] (str message) result
  pub printed_eq : j ≡ result.completion

module _ (env : Env) (platform : Text) (endpoint : ℕ) (key model message : Text) where
  outcome_of-answered :
      (r : Result InferResult) (j : Json)
      → outcome_of r ≡ answered j
      → (res : InferResult) × (r ≡ ok res) × (j ≡ res.completion)
  outcome_of-answered (ok res) j h = (res, refl, cc h)
  outcome_of-answered (err e) j h = absurd (cc h)

  call_with-CallProved :
      (ex tok j : Json)
      → exchange env platform endpoint key ≡ ok ex
      → get ex (lit "capability_token") ≡ ok tok
      → call_with env model message ex tok ≡ ok (answered j)
      → CallProved env platform endpoint key model message j
  unfolding call_with verified_call split_messages item
  call_with-CallProved ex tok j ee et h =
      let (url, eu, h1) = >>=-eq-ok _ _ h in
      let (u, eu1, eu2) = >>=-eq-ok (item ex (lit "enclave_url")) as_text eu in
      let (meas, em, h2) = >>=-eq-ok (get_or ex (lit "expected_measurement") (str [])) _ h1 in
      let (res, er, ej) =
        outcome_of-answered (verified_call env (rstrip b'/' url) tok meas model message) j
          (ok-injective _ _ h2) in
      let (token, ek, h3) = >>=-eq-ok (token_text tok) _ er in
      let (pin, ep, h4) = >>=-eq-ok (pin_text meas) _ h3 in
      let (c, ec, h5) = >>=-eq-ok (new_client (call_config (rstrip b'/' url) token pin)) _ h4 in
      let messages = user_message message ∷ [] in
      let s = (chat env model messages c).1 in
      let (prefix, suffix, split, done) =
        chat-Completed env c s model messages res λ i. (h5 i, s) in
      let parts = ok-injective ([], str message) (prefix, suffix) split in
      record {
        ex = ex;
        exchange_eq = ee;
        token = token;
        token_eq = et ∙ ap ok (token_text-eq tok token ek);
        url = url;
        url_eq = eu1 ∙ ap ok (as_text-eq u url eu2);
        expected = meas;
        expected_eq = em;
        pin = pin;
        pin_eq = pin_text-Pin meas pin ep;
        client = c;
        client_eq = ec;
        result = res;
        completed = subst (λ (q : Text × Json). Completed env c model q.0 q.1 res) (sym parts) done;
        printed_eq = ej;
      }

  -- The command line prints a completion only if the exchange gave a token and the address of an
  -- enclave, and a client with just that token completed the call: the prompt, which is the message
  -- with no prefix, went out sealed to the attested enclave, and the answer came with a receipt for the
  -- model that was asked for. The client pins the measurement that the exchange expects; if that is
  -- false, as `null`, the empty text and a missing one are, it pins none. A call whose token is no
  -- text, or whose measurement is neither false nor a text, is not followed.
  pub cmd_call-CallProved :
      (j : Json)
      → cmd_call env platform endpoint key model message ≡ ok (answered j)
      → CallProved env platform endpoint key model message j
  unfolding cmd_call
  cmd_call-CallProved j h =
      let (ex, ee, h1) = >>=-eq-ok (exchange env platform endpoint key) _ h in
      let (tok, et, h2) = >>=-eq-ok (get ex (lit "capability_token")) _ h1 in
      elim (if-cases (truthy tok) _ _ h2) [
        | inl (_, h3) ↦ call_with-CallProved ex tok j ee et h3
        | inr (_, h3) ↦
            let (e, _, h4) =
              >>=-eq-ok (get_or ex (lit "error") (str (lit "exchange failed"))) _ h3 in
            absurd (cc h4)
      ]
