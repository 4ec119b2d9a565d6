-- ===== src/Deploy/Gcp/Laws.antt =====
-- Which requests a session sends, and where its token goes.
use fidrouter.Base.{
  Text, Bytes, Bool, true, false, Option, none, some, [], ◌∷◌, ◌++◌, Result, ok, ◌≡◌, refl, sym, ap,
  ◌∙◌, ◌⊎◌, inl, inr, ℤ, negsuc, ◌+ℤ◌, Option-cases, subst, if◌then◌else◌,
}
use fidrouter.Json.{Json}
use fidrouter.Exec.{
  Keeps, Keeps-after, Keeps-bind, Exec, Returns, bind-Returns, lift-Returns, pure-Returns,
  ok-injective,
}
use fidrouter.Deploy.Settings.{Assignments, read_env}
use fidrouter.Deploy.Account.{
  read_account, token_address, assertion, exchange_call, exchanged, read_grant,
}
use fidrouter.Deploy.Machine.{called, Machine, Session, send, keep_env, keep_account, keep_token}
use fidrouter.Deploy.Gcp
use fidrouter.Deploy.Gcp.{
  read_env_file, env_or_read, load_env, account_or_load, load_account, account, token_or_new, trade,
  new_token, fresh, api,
}

module _ (m : Machine) (P : Session → Type 0)
    (keeps_env : (env : Assignments) → Keeps P (keep_env env))
    (keeps_account : (sa : Json) → Keeps P (keep_account sa)) where
  env_or_read-Keeps : (o : Option Assignments) → Keeps P (env_or_read m o)
  unfolding env_or_read read_env_file
  env_or_read-Keeps (some env) s h = h
  env_or_read-Keeps none s h = Keeps-after P _ keep_env_of (λ body. keeps_env (read_env body)) s h
    where
      keep_env_of : Text → Exec Session Assignments
      keep_env_of body = keep_env (read_env body)

  pub load_env-Keeps : Keeps P (load_env m)
  unfolding load_env
  load_env-Keeps s h = env_or_read-Keeps s.settings s h

  account_or_load-Keeps : (o : Option Json) → Keeps P (account_or_load m o)
  unfolding account_or_load load_account
  account_or_load-Keeps (some sa) s h = h
  account_or_load-Keeps none s h =
      Keeps-bind P (load_env m) _ load_env-Keeps
        (λ env t ht. Keeps-after P _ keep_account keeps_account t ht) s h

  account-Keeps : Keeps P (account m)
  unfolding account
  account-Keeps s h = account_or_load-Keeps s.account s h

-- A run that sent nothing and left the token alone.
abbrev pub Quiet : Session → Session → Type 0
Quiet s t = (t.events ≡ s.events) × (t.cached ≡ s.cached)

pub account-Quiet : (m : Machine) (s : Session) → Quiet s (account m s).1
account-Quiet m s = account-Keeps m (Quiet s) (λ env t h. h) (λ sa t h. h) s (refl, refl)

account_or_load-account :
    (m : Machine) (o : Option Json) (s t : Session) (sa : Json)
    → s.account ≡ o
    → Returns (account_or_load m o) s sa t
    → t.account ≡ some sa
unfolding account_or_load load_account
account_or_load-account m (some sa) s t sa' e h = let (es, et) = pure-Returns sa sa' s t h in cc
account_or_load-account m none s t sa' e h =
    let (env, s1, _, h1) = bind-Returns (load_env m) _ s h in
    let (sa, _, h2) = lift-Returns (read_account m s1.events env) keep_account s1 h1 in
    sym (ap (λ (p : Result Json × Session). p.1.account) h2)
    ∙ ap some (ok-injective sa sa' (ap (λ (p : Result Json × Session). p.0) h2))

pub account-eq :
    (m : Machine) (s t : Session) (sa : Json) → Returns (account m) s sa t → t.account ≡ some sa
unfolding account
account-eq m s t sa h = account_or_load-account m s.account s t sa refl h

-- A token that was traded for: one request, to the address of the account's tokens.
pub record Exchanged (m : Machine) (s t : Session) (token : Json) : Type 0 where
  pub sa : Json
  pub sa_eq : t.account ≡ some sa
  pub uri : Text
  pub uri_eq : token_address sa ≡ ok uri
  pub now : ℤ
  pub now_eq : m.floats.truncate (m.now s.events) ≡ ok now
  pub signed : Text
  pub signed_eq : assertion m sa now ≡ ok signed
  pub raw : Bytes
  pub raw_eq : exchanged (m.answer s.events (exchange_call uri signed)) ≡ ok raw
  pub expiry : ℤ
  pub grant_eq : read_grant m now raw ≡ ok (token, expiry)
  pub events_eq : t.events ≡ s.events ++ called (exchange_call uri signed) ∷ []
  pub cached_eq : t.cached ≡ some (token, expiry)

-- A token that was there: it is not about to expire, and nothing was done.
pub record Reused (m : Machine) (s t : Session) (token : Json) : Type 0 where
  pub expiry : ℤ
  pub cached_eq : s.cached ≡ some (token, expiry)
  pub in_time : m.floats.less_int (m.now s.events) (expiry +ℤ negsuc 59) ≡ true
  pub same_session : t ≡ s

trade-Exchanged :
    (m : Machine) (sa : Json) (s t : Session) (token : Json)
    → s.account ≡ some sa
    → Returns (trade m sa) s token t
    → Exchanged m s t token
unfolding trade send
trade-Exchanged m sa s t token es h =
    let (now, en, h2) = lift-Returns (m.floats.truncate (m.now s.events)) _ s h in
    let (signed, ea, h3) = lift-Returns (assertion m sa now) _ s h2 in
    let (uri, eu, h4) = lift-Returns (token_address sa) _ s h3 in
    let s2 : Session = record s { events = s.events ++ called (exchange_call uri signed) ∷ [] } in
    let (raw, er, h5) =
      lift-Returns (exchanged (m.answer s.events (exchange_call uri signed))) _ s2 h4 in
    let (grant, eg, h6) = lift-Returns (read_grant m now raw) keep_token s2 h5 in
    let same_token = ok-injective grant.0 token (ap (λ (p : Result Json × Session). p.0) h6) in
    let left = ap (λ (p : Result Json × Session). p.1) h6 in
    record {
      sa = sa;
      sa_eq = sym (ap (λ (u : Session). u.account) left) ∙ es;
      uri = uri;
      uri_eq = eu;
      now = now;
      now_eq = en;
      signed = signed;
      signed_eq = ea;
      raw = raw;
      raw_eq = er;
      expiry = grant.1;
      grant_eq = eg ∙ ap (λ (x : Json). ok (x, grant.1)) same_token;
      events_eq = sym (ap (λ (u : Session). u.events) left);
      cached_eq =
          sym (ap (λ (u : Session). u.cached) left)
          ∙ ap (λ (x : Json). some (x, grant.1)) same_token;
    }

-- The account was loaded in a session with the same events.
Exchanged-earlier :
    (m : Machine) (s s1 t : Session) (token : Json)
    → s1.events ≡ s.events
    → Exchanged m s1 t token
    → Exchanged m s t token
Exchanged-earlier m s s1 t token e x = record {
  sa = x.sa;
  sa_eq = x.sa_eq;
  uri = x.uri;
  uri_eq = x.uri_eq;
  now = x.now;
  now_eq = ap (λ es. m.floats.truncate (m.now es)) (sym e) ∙ x.now_eq;
  signed = x.signed;
  signed_eq = x.signed_eq;
  raw = x.raw;
  raw_eq = ap (λ es. exchanged (m.answer es (exchange_call x.uri x.signed))) (sym e) ∙ x.raw_eq;
  expiry = x.expiry;
  grant_eq = x.grant_eq;
  events_eq = x.events_eq ∙ ap (λ es. es ++ called (exchange_call x.uri x.signed) ∷ []) e;
  cached_eq = x.cached_eq;
}

pub if-some : (b : Bool) (x y : Json) → (if b then some x else none) ≡ some y → (b ≡ true) × (x ≡ y)
if-some true x y h = (refl, cc)
if-some false x y h = cc

fresh-Reused :
    (m : Machine) (s : Session) (token : Json) → fresh m s ≡ some token → Reused m s s token
unfolding fresh
fresh-Reused m s token h = elim (Option-cases s.cached) [
  | inl e ↦ absurd (cc (rw e at h))
  | inr (grant, e) ↦
      let (in_time, same_token) = if-some _ grant.0 token (rw e at h) in
      record {
        expiry = grant.1;
        cached_eq = e ∙ ap (λ (x : Json). some (x, grant.1)) same_token;
        in_time = in_time;
        same_session = refl;
      }
]

abbrev pub Taken : Machine → Session → Session → Json → Type 0
Taken m s t token = Reused m s t token ⊎ (fresh m s ≡ none) × Exchanged m s t token

token_or_new-Taken :
    (m : Machine) (o : Option Json) (s t : Session) (token : Json)
    → fresh m s ≡ o
    → Returns (token_or_new m o) s token t
    → Taken m s t token
unfolding token_or_new new_token
token_or_new-Taken m (some x) s t token e h =
    let (ex, et) = pure-Returns x token s t h in
    inl (subst (λ u. Reused m s u token) et (fresh-Reused m s token (e ∙ ap some ex)))
token_or_new-Taken m none s t token e h =
    let (sa, s1, ha, h1) = bind-Returns (account m) (trade m) s h in
    let quiet = subst (Quiet s) (ap (λ (p : Result Json × Session). p.1) ha) (account-Quiet m s) in
    inr (
      e,
      Exchanged-earlier m s s1 t token quiet.0
          (trade-Exchanged m sa s1 t token (account-eq m s s1 sa ha) h1),
    )

-- The token that a call returns is the one that the session keeps: either it was kept before, with
-- more than a minute to live, and then nothing was done; or none such was there, and exactly one
-- request was sent, to the address of the account's tokens, with an assertion that the account's key
-- signed, and the token and its expiry are those of the answer.
pub token-Taken :
    (m : Machine) (s t : Session) (token : Json)
    → Returns (Gcp.token m) s token t
    → Taken m s t token
unfolding Gcp.token
token-Taken m s t token h = token_or_new-Taken m (fresh m s) s t token refl h
