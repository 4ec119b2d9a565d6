-- ===== src/Quote/Policy/Laws.antt =====
-- A quote is accepted exactly when the policy holds.
use fidrouter.Base.{
  Text, Bytes, Bool, true, false, not, ◌&&◌, Option, none, some, [], ok, guard, refuse, guard-eq-ok,
  refuse-eq-ok, length, take, same, same_iff, ◌≡◌, refl, ap, sym, ◌∙◌, arith, ◌⊎◌, ◌==◌, ==_iff,
}
use fidrouter.Text.Hex.{hex}
use fidrouter.Env.{Env}
use fidrouter.Exec.{Returns, bind-Returns, lift-Returns, pure-Returns}
use fidrouter.Quote.Parse.{ParsedTdxQuote, parse_tdx_quote, is_tdx, tee_type_tdx}
use fidrouter.Quote.Token.{TcbResult}
use fidrouter.Quote.Policy.{
  Backend, stub, stub_result, run_backend, VerifiedQuote, is_unbound, verify_tdx_quote,
}

abbrev pub IsBound : Bytes → Option Bytes → Type 0
IsBound report_data none = Unit
IsBound report_data (some expected) = take (length expected) report_data ≡ expected

-- The policy, over the result that the backend gave.
pub record Policy (raw : Bytes) (pinned : Text) (expected : Option Bytes) (allow_unverified : Bool)
    (tcb : TcbResult) (v : VerifiedQuote) : Type 0 where
  pub quote : ParsedTdxQuote
  pub quote_eq : parse_tdx_quote raw ≡ ok quote
  pub tdx : quote.tee_type ≡ tee_type_tdx
  pub checked : (tcb.verified ≡ true) ⊎ (allow_unverified ≡ true)
  pub pinned_eq : (pinned ≡ []) ⊎ (hex quote.mrtd_bytes ≡ pinned)
  pub bound : IsBound quote.report_data expected
  pub result : v ≡ record {
    measurement = hex quote.mrtd_bytes;
    report_data = quote.report_data;
    rtmr = quote.rtmr;
    tcb_status = tcb.tcb_status;
    backend_verified = tcb.verified;
  }

checked_of :
    (verified allow : Bool)
    → (not verified && not allow) ≡ false
    → (verified ≡ true) ⊎ (allow ≡ true)
checked_of verified allow h = ground arith

pinned_of :
    (meas pinned : Text)
    → (not (same pinned []) && not (same meas pinned)) ≡ false
    → (pinned ≡ []) ⊎ (meas ≡ pinned)
pinned_of meas pinned h = ground (arith, same_iff pinned [], same_iff meas pinned)

is_unbound-IsBound :
    (report_data : Bytes) (expected : Option Bytes)
    → is_unbound report_data expected ≡ false
    → IsBound report_data expected
unfolding is_unbound
is_unbound-IsBound report_data none h = tt
is_unbound-IsBound report_data (some e) h = ground (arith, same_iff (take (length e) report_data) e)

not-unbound :
    (report_data : Bytes) (expected : Option Bytes)
    → IsBound report_data expected
    → is_unbound report_data expected ≡ false
unfolding is_unbound
not-unbound report_data none h = refl
not-unbound report_data (some e) h = ground (arith, same_iff (take (length e) report_data) e)

of_checked :
    (verified allow : Bool)
    → (verified ≡ true) ⊎ (allow ≡ true)
    → (not verified && not allow) ≡ false
of_checked verified allow h = ground arith

of_pinned :
    (meas pinned : Text)
    → (pinned ≡ []) ⊎ (meas ≡ pinned)
    → (not (same pinned []) && not (same meas pinned)) ≡ false
of_pinned meas pinned h = ground (arith, same_iff pinned [], same_iff meas pinned)

stub_contradiction :
    (tcb : TcbResult) → stub_result ≡ tcb → (tcb.verified ≡ true) ⊎ ◌≡◌ {A = Bool} false true → ⊥
stub_contradiction tcb e h = ground (arith, ap (λ t. t.verified) e)

module _ (env : Env) (raw : Bytes) (pinned : Text) (expected : Option Bytes)
    (allow_unverified : Bool) (b b' : Backend) where
  -- A quote that is accepted is a TDX quote whose backend returned a result; that result is verified
  -- or unverified quotes are allowed; the measurement is the pinned one, if one is pinned; the
  -- report data begins with the expected bytes, if some are expected; and the answer holds the
  -- quote's own fields.
  pub verify_tdx_quote_sound :
      (v : VerifiedQuote)
      → Returns (verify_tdx_quote env raw pinned expected allow_unverified) b v b'
      → (tcb : TcbResult) × Returns (run_backend env raw) b tcb b'
        × Policy raw pinned expected allow_unverified tcb v
  unfolding verify_tdx_quote is_tdx
  verify_tdx_quote_sound v h =
      let (q, eq, h0) = lift-Returns (parse_tdx_quote raw) _ b h in
      let (_, et, h1) = lift-Returns (guard (q.tee_type == tee_type_tdx) _) _ b h0 in
      let (tcb, s, er, h2) = bind-Returns (run_backend env raw) _ b h1 in
      let (_, ec, h3) = lift-Returns (refuse (not tcb.verified && not allow_unverified) _) _ s h2 in
      let (_, ep, h4) =
        lift-Returns (refuse (not (same pinned []) && not (same (hex q.mrtd_bytes) pinned)) _) _ s
          h3 in
      let (_, eb, h5) = lift-Returns (refuse (is_unbound q.report_data expected) _) _ s h4 in
      let (ev, state) = pure-Returns _ v s b' h5 in
      (
        tcb,
        er ∙ ap (λ t. (ok tcb, t)) state,
        record {
          quote = q;
          quote_eq = eq;
          tdx = (==_iff q.tee_type tee_type_tdx).0 (guard-eq-ok _ _ et);
          checked = checked_of tcb.verified allow_unverified (refuse-eq-ok _ _ ec);
          pinned_eq = pinned_of (hex q.mrtd_bytes) pinned (refuse-eq-ok _ _ ep);
          bound = is_unbound-IsBound q.report_data expected (refuse-eq-ok _ _ eb);
          result = sym ev;
        },
      )

  -- Whenever the backend returns a result and the policy holds of it, the quote is accepted.
  pub verify_tdx_quote_complete :
      (tcb : TcbResult) (v : VerifiedQuote)
      → Returns (run_backend env raw) b tcb b'
      → Policy raw pinned expected allow_unverified tcb v
      → Returns (verify_tdx_quote env raw pinned expected allow_unverified) b v b'
  unfolding verify_tdx_quote is_tdx
  verify_tdx_quote_complete tcb v er p = rw (
    p.quote_eq,
    (==_iff p.quote.tee_type tee_type_tdx).1 p.tdx,
    er,
    of_checked tcb.verified allow_unverified p.checked,
    of_pinned (hex p.quote.mrtd_bytes) pinned p.pinned_eq,
    not-unbound p.quote.report_data expected p.bound,
    p.result,
  )

-- With the development backend, and unless the caller allows unverified quotes, no quote is ever
-- accepted, whatever its bytes, the pin and the expected report data.
pub not-verify_tdx_quote-stub :
    (env : Env) (raw : Bytes) (pinned : Text) (expected : Option Bytes) (v : VerifiedQuote)
    (b : Backend)
    → ¬ Returns (verify_tdx_quote env raw pinned expected false) stub v b
unfolding run_backend
not-verify_tdx_quote-stub env raw pinned expected v b h =
    let (tcb, er, p) = verify_tdx_quote_sound env raw pinned expected false stub b v h in
    let e : stub_result ≡ tcb = (pure-Returns stub_result tcb stub b er).0 in
    stub_contradiction tcb e p.checked
