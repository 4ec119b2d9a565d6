-- ===== src/Deploy/Launch/Laws.antt =====
-- What the parts of the launching scripts do to the world: which events they add, and how long they wait.
use fidrouter.Base.{
  ℕ, Text, Bytes, Option, none, some, List, [], ◌∷◌, ◌++◌, append_assoc, append-nil, Result, ok,
  err, Error, ◌≡◌, refl, sym, ap, ◌∙◌, inl, inr, All, All-append, subst,
}
use fidrouter.Json.{Json}
use fidrouter.Json.Loads.{loads_text}
use fidrouter.Exec.{after-cases, Returns, Exec, Keeps, Keeps-bind, lift, ◌>>=◌, ◌>>◌}
use fidrouter.Deploy.Account.{exchange_call, encode_body, api_call}
use fidrouter.Deploy.Machine.{
  Event, called, ran, changed, saved, Machine, Session, added, emit, asks, gcp_parts, handle_parts,
  handle, catch_gcp,
}
use fidrouter.Deploy.Gcp
use fidrouter.Deploy.Gcp.Laws.{load_env-Keeps}
use fidrouter.Deploy.Gcp.{load_env, api, api_get, api_post, api_delete}
use fidrouter.Deploy.Gcp.Calls.{token-Added, api-Sends, Sends, Trades}
use fidrouter.Deploy.Launch.{run_command, succeeded, check_command, change, load_json, save_state}

-- The events since a session, each of which has a property.
abbrev pub Extends : (Event → Type 0) → Session → Session → Type 0
Extends Q s t = (es : List Event) × (t.events ≡ s.events ++ es) × All Q es

-- A step adds only such events, whether it returns or raises.
abbrev pub Only : {A : Type 0} → (Event → Type 0) → Exec Session A → Type 0
Only Q step = (s : Session) → Keeps (Extends Q s) step

-- A value that a step returned, in some session.
abbrev pub Came : {A : Type 0} → Exec Session A → A → Type 0
Came step a = (t : Session) × (t' : Session) × Returns step t a t'

pub Extends-refl : (Q : Event → Type 0) (s : Session) → Extends Q s s
Extends-refl Q s = ([], sym (append-nil s.events), tt)

pub Extends-append :
    (Q : Event → Type 0) (s t u : Session) (es : List Event)
    → Extends Q s t
    → u.events ≡ t.events ++ es
    → All Q es
    → Extends Q s u
Extends-append Q s t u es (before, e, h) eu hs = (
  before ++ es,
  eu ∙ ap (λ x. x ++ es) e ∙ append_assoc s.events before es,
  All-append Q before es h hs,
)

pub Extends-added :
    (Q : Event → Type 0) (s t : Session) (e : Event) → Extends Q s t → Q e → Extends Q s (added t e)
Extends-added Q s t e h q = Extends-append Q s t (added t e) (e ∷ []) h refl (q, tt)

module _ (Q : Event → Type 0) where
  pub emit-Only : (e : Event) → Q e → Only Q (emit e)
  emit-Only e q s t h = Extends-added Q s t (e) h q

  handle_parts-Only :
      {A : Type 0} (o : Option (Text × ℕ × Text)) (e : Error) (h : Text → ℕ → Text → Exec Session A)
      → ((message : Text) (code : ℕ) (body : Text) → Only Q (h message code body))
      → Only Q (handle_parts o e h)
  handle_parts-Only none e h k s t x = x
  handle_parts-Only (some (message, code, body)) e h k s t x = k message code body s t x

  handle-Only :
      {A : Type 0} (r : Result A) (h : Text → ℕ → Text → Exec Session A)
      → ((message : Text) (code : ℕ) (body : Text) → Only Q (h message code body))
      → Only Q (handle r h)
  handle-Only (ok a) h k s t x = x
  handle-Only (err e) h k s t x = handle_parts-Only (gcp_parts e) e h k s t x

  pub catch_gcp-Only :
      {A : Type 0} (step : Exec Session A) (h : Text → ℕ → Text → Exec Session A)
      → Only Q step
      → ((message : Text) (code : ℕ) (body : Text) → Only Q (h message code body))
      → Only Q (catch_gcp step h)
  catch_gcp-Only step h hs k s t x = handle-Only (step t).0 h k s (step t).1 (hs s t x)

  pub bind-Only :
      {A B : Type 0} (step : Exec Session A) (next : A → Exec Session B)
      → Only Q step
      → ((a : A) → Only Q (next a))
      → Only Q (step >>= next)
  bind-Only step next h k s = Keeps-bind (Extends Q s) step next (h s) (λ a. k a s)

  -- What follows a step need only be looked at for values that the step returned.
  pub bind-Only-from :
      {A B : Type 0} (step : Exec Session A) (next : A → Exec Session B)
      → Only Q step
      → ((a : A) → Came step a → Only Q (next a))
      → Only Q (step >>= next)
  bind-Only-from step next h k s t x =
      after-cases (λ out. Extends Q s out.1) (step t).0 next (step t).1 (λ e _. h s t x)
        λ a e. k a (t, (step t).1, λ i. (e i, (step t).1)) s (step t).1 (h s t x)

  pub then-Only :
      {B : Type 0} (step : Exec Session (Unit {0})) (next : Exec Session B)
      → Only Q step
      → Only Q next
      → Only Q (step >> next)
  then-Only step next h k = bind-Only step (λ _. next) h (λ _. k)

  pub lift-Only : {A : Type 0} (r : Result A) → Only Q (lift r)
  lift-Only r s t x = x

  pub asks-Only : {A : Type 0} (f : List Event → Result A) → Only Q (asks f)
  asks-Only f s t x = x

  pub run_command-Only :
      (m : Machine) (argv : List Text) (input : Option Text)
      → Q (ran argv input)
      → Only Q (run_command m argv input)
  unfolding run_command
  run_command-Only m argv input q s t h = Extends-added Q s t (ran argv input) h q

  pub check_command-Only :
      (m : Machine) (argv : List Text) (input : Option Text)
      → Q (ran argv input)
      → Only Q (check_command m argv input)
  unfolding check_command
  check_command-Only m argv input q =
      bind-Only (run_command m argv input) (λ e. lift (succeeded e))
        (run_command-Only m argv input q) λ e. lift-Only (succeeded e)

  pub change-Only :
      (m : Machine) (op : Text) (args : List Text) → Q (changed op args) → Only Q (change m op args)
  unfolding change
  change-Only m op args q s t h = Extends-added Q s t (changed op args) h q

  pub save_state-Only :
      (m : Machine) (path : Text) (j : Json) → Q (saved path j) → Only Q (save_state m path j)
  unfolding save_state
  save_state-Only m path j q s t h = Extends-added Q s t (saved path j) h q

  pub load_json-Only : (m : Machine) (path : Text) → Only Q (load_json m path)
  unfolding load_json
  load_json-Only m path s =
      Keeps-bind (Extends Q s) _ (λ body. lift (loads_text m.floats body)) (λ t h. h)
        (λ body t h. h)

-- The calls of the API: the request for a token is of the kind too, and so is the call itself.
module _ (m : Machine) (Q : Event → Type 0)
    (trades : (uri signed : Text) → Q (called (exchange_call uri signed))) where
  Trades-All : (t : Session) (es : List Event) → Trades t es → All Q es
  Trades-All t es (inl e) = subst (All Q) (sym e) tt
  Trades-All t es (inr (sa, uri, signed, _, _, e)) = subst (All Q) (sym e) (trades uri signed, tt)

  pub token-Only : Only Q (Gcp.token m)
  token-Only s t h =
      let (es, e, traded) = token-Added m t in
      Extends-append Q s t (Gcp.token m t).1 es h e (Trades-All (Gcp.token m t).1 es traded)

  pub api-Only :
      (method url : Text) (body : Option Json)
      → ((payload : Option Bytes) (bearer : Text)
          → encode_body m body ≡ ok payload
          → Q (called (api_call method url payload bearer)))
      → Only Q (api m method url body)
  api-Only method url body q s t h =
      let (es, e, sent) = api-Sends m method url body t in
      Extends-append Q s t (api m method url body t).1 es h e
        (sends-All (api m method url body t).1 es sent)
    where
      sends-All : (u : Session) (es : List Event) → Sends m method url body u es → All Q es
      sends-All u es (inl x) = Trades-All u es x
      sends-All u es (inr (before, payload, bearer, _, x, ep, _, e)) = subst (All Q) (sym e) (
          All-append Q before (called (api_call method url payload bearer) ∷ [])
            (Trades-All u before x) (q payload bearer ep, tt))

pub load_env-Only : (m : Machine) (Q : Event → Type 0) → Only Q (load_env m)
load_env-Only m Q s = load_env-Keeps m (Extends Q s) (λ env t h. h) (λ sa t h. h)
