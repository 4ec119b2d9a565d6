-- ===== src/Deploy/Gcp/Calls.antt =====
-- Which requests a call of the API sends, and what it returns.
use fidrouter.Base.{
  Text, Bytes, Option, none, some, List, [], ◌∷◌, ◌++◌, append_assoc, append-nil, Result, ok, ◌≡◌,
  refl, sym, ap, ◌∙◌, ◌⊎◌, inl, inr, ℤ, subst, >>=-eq-ok,
}
use fidrouter.Json.{Json, str, obj, end, as_text}
use fidrouter.Json.Laws.{as_text-eq}
use fidrouter.Json.Loads.{loads}
use fidrouter.Text.Utf8.Decode.{decode}
use fidrouter.Exec.{ok-injective, Returns, after-cases, bind-Returns, lift-Returns}
use fidrouter.Deploy.Account.{
  token_address, assertion, exchange_call, exchanged, read_grant, encode_body, api_call, api_answer,
}
use fidrouter.Deploy.Machine.{
  Event, called, Answer, answered, status, lost, Machine, Session, send, keep_token,
}
use fidrouter.Deploy.Gcp
use fidrouter.Deploy.Gcp.{account, trade, new_token, fresh, token_or_new, api}
use fidrouter.Deploy.Gcp.Laws.{account-Quiet, account-eq, Taken, token-Taken}

-- No request, or the one that trades for a token.
abbrev pub Trades : Session → List Event → Type 0
Trades t es =
    (es ≡ [])
    ⊎ (sa : Json) × (uri : Text) × (signed : Text) × (t.account ≡ some sa)
      × (token_address sa ≡ ok uri)
      × (es ≡ called (exchange_call uri signed) ∷ [])

-- What was added to the events.
abbrev pub Added : Session → (Session → List Event → Type 0) → Session → Type 0
Added s P t = (es : List Event) × (t.events ≡ s.events ++ es) × P t es

abbrev pub Traded : {A : Type 0} → Session → Result A × Session → Type 0
Traded s out = Added s Trades out.1

quiet-Added : (s t : Session) → t.events ≡ s.events → Added s Trades t
quiet-Added s t e = ([], e ∙ sym (append-nil s.events), inl refl)

trade-Added :
    (m : Machine) (sa : Json) (s u : Session)
    → s.events ≡ u.events
    → s.account ≡ some sa
    → Traded u (trade m sa s)
unfolding trade send
trade-Added m sa s u e es =
    after-cases (Traded u) (m.floats.truncate (m.now s.events)) _ s (λ _ _. quiet-Added u s e)
      λ now _.
        after-cases (Traded u) (assertion m sa now) _ s (λ _ _. quiet-Added u s e)
          λ signed _.
            after-cases (Traded u) (token_address sa) _ s (λ _ _. quiet-Added u s e)
              λ uri eu.
                let call = called (exchange_call uri signed) in
                let t : Session = record s { events = s.events ++ call ∷ [] } in
                let sent : (v : Session)
                    → v.events ≡ t.events
                    → v.account ≡ t.account
                    → Added u Trades v =
                  λ v ev ea. (
                    call ∷ [],
                    ev ∙ ap (λ x. x ++ call ∷ []) e,
                    inr (sa, uri, signed, ea ∙ es, eu, refl),
                  ) in
                after-cases (Traded u) (exchanged (m.answer s.events (exchange_call uri signed))) _
                  t (λ _ _. sent t refl refl)
                  λ raw _.
                    after-cases (Traded u) (read_grant m now raw) keep_token t
                      (λ _ _. sent t refl refl)
                      λ grant _. sent (record t { cached = some grant }) refl refl

token_or_new-Added : (m : Machine) (o : Option Json) (s : Session) → Traded s (token_or_new m o s)
unfolding token_or_new new_token
token_or_new-Added m (some t) s = quiet-Added s s refl
token_or_new-Added m none s =
    let quiet = account-Quiet m s in
    after-cases (Traded s) (account m s).0 (trade m) (account m s).1
      (λ _ _. quiet-Added s (account m s).1 quiet.0)
      λ sa e.
        trade-Added m sa (account m s).1 s quiet.0
          (account-eq m s (account m s).1 sa λ i. (e i, (account m s).1))

pub token-Added : (m : Machine) (s : Session) → Traded s (Gcp.token m s)
unfolding Gcp.token
token-Added m s = token_or_new-Added m (fresh m s) s

-- The token that was returned is kept.
Taken-cached :
    (m : Machine) (s t : Session) (token : Json)
    → Taken m s t token
    → (e : ℤ) × (t.cached ≡ some (token, e))
Taken-cached m s t token (inl x) =
    (x.expiry, ap (λ (u : Session). u.cached) x.same_session ∙ x.cached_eq)
Taken-cached m s t token (inr (_, x)) = (x.expiry, x.cached_eq)

-- The call itself, with the token that the session keeps, and before it perhaps the request for that
-- token.
abbrev pub Calls : Machine → Text → Text → Option Json → Session → List Event → Type 0
Calls m method url body t es =
    (before : List Event) × (payload : Option Bytes) × (bearer : Text) × (expiry : ℤ) × Trades t
      before
    × (encode_body m body ≡ ok payload)
    × (t.cached ≡ some (str bearer, expiry))
    × (es ≡ before ++ called (api_call method url payload bearer) ∷ [])

abbrev pub Sends : Machine → Text → Text → Option Json → Session → List Event → Type 0
Sends m method url body t es = Trades t es ⊎ Calls m method url body t es

-- Whether a call of the API returns or raises, it has sent no more than two requests: perhaps the one
-- that trades an assertion for a token, to the address of the account's tokens, and perhaps after it
-- the call, to the absolute form of its address, which carries the body's JSON and the token that
-- the session keeps.
pub api-Sends :
    (m : Machine) (method url : Text) (body : Option Json) (s : Session)
    → Added s (Sends m method url body) (api m method url body s).1
unfolding api send
api-Sends m method url body s =
    let P = λ (out : Result Json × Session). Added s (Sends m method url body) out.1 in
    after-cases P (encode_body m body) _ s (λ _ _. ([], sym (append-nil s.events), inl (inl refl)))
      λ payload ep.
        let (before, eb, hb) = token-Added m s in
        let s1 = (Gcp.token m s).1 in
        after-cases P (Gcp.token m s).0 _ s1 (λ _ _. (before, eb, inl hb))
          λ t et.
            after-cases P (as_text t) _ s1 (λ _ _. (before, eb, inl hb))
              λ bearer ebearer.
                let (expiry, ec) = Taken-cached m s s1 t (token-Taken m s s1 t λ i. (et i, s1)) in
                let call = called (api_call method url payload bearer) in
                (
                  before ++ call ∷ [],
                  ap (λ x. x ++ call ∷ []) eb ∙ append_assoc s.events before (call ∷ []),
                  inr (
                    before,
                    payload,
                    bearer,
                    expiry,
                    hb,
                    ep,
                    ec ∙ ap (λ (x : Json). some (x, expiry)) (as_text-eq t bearer ebearer),
                    refl,
                  ),
                )

-- What a call of the API returned is what its one answer said.
pub record Answered (m : Machine) (method url : Text) (body : Option Json) (s t : Session)
    (j : Json) : Type 0 where
  pub payload : Option Bytes
  pub payload_eq : encode_body m body ≡ ok payload
  pub bearer : Text
  pub before : Session
  pub taken : Taken m s before (str bearer)
  pub raw : Bytes
  pub answer_eq : m.answer before.events (api_call method url payload bearer) ≡ answered raw
  pub read_eq : (raw ≡ []) × (j ≡ obj end) ⊎ (loads m.floats raw ≡ ok j)
  pub events_eq : t.events ≡ before.events ++ called (api_call method url payload bearer) ∷ []

api_answer-ok :
    (m : Machine) (a : Answer) (j : Json)
    → api_answer m a ≡ ok j
    → (raw : Bytes) × (a ≡ answered raw)
      × ((raw ≡ []) × (j ≡ obj end) ⊎ (loads m.floats raw ≡ ok j))
unfolding api_answer
api_answer-ok m (answered []) j h = ([], refl, inl (refl, sym (ok-injective (obj end) j h)))
api_answer-ok m (answered (b ∷ bs)) j h = (b ∷ bs, refl, inr h)
api_answer-ok m (status code raw) j h =
    let (body, _, h1) = >>=-eq-ok (decode raw) _ h in absurd (cc h1)
api_answer-ok m lost j h = absurd (cc h)

-- A call of the API returns only what an answer below status 400 to that very call said, with the
-- token that `token` gave for it: the JSON of the answer, or the empty object if the answer is empty.
pub api-Answered :
    (m : Machine) (method url : Text) (body : Option Json) (s t : Session) (j : Json)
    → Returns (api m method url body) s j t
    → Answered m method url body s t j
unfolding api send
api-Answered m method url body s t j h =
    let (payload, ep, h1) = lift-Returns (encode_body m body) _ s h in
    let (token, s1, ht, h2) = bind-Returns (Gcp.token m) _ s h1 in
    let (bearer, eb, h3) = lift-Returns (as_text token) _ s1 h2 in
    let call = api_call method url payload bearer in
    let e = ap (λ (p : Result Json × Session). p.0) h3 in
    let (raw, ea, er) = api_answer-ok m (m.answer s1.events call) j e in
    record {
      payload = payload;
      payload_eq = ep;
      bearer = bearer;
      before = s1;
      taken = subst (Taken m s s1) (as_text-eq token bearer eb) (token-Taken m s s1 token ht);
      raw = raw;
      answer_eq = ea;
      read_eq = er;
      events_eq = sym (ap (λ (p : Result Json × Session). p.1.events) h3);
    }
