-- ===== src/Quote/Policy.antt =====
-- The backends and `verify_tdx_quote`: parse a quote, have its cryptography checked, apply the policy.
pub mod Laws
use fidrouter.Base.{
  ℕ, Text, Bytes, lit, Bool, true, false, not, ◌&&◌, Option, none, some, List, [], ◌∷◌, ◌++◌,
  Result, ok, err, dcap, not_implemented, guard, refuse, length, take, same, if◌then◌else◌,
}
use fidrouter.Text.Hex.{hex}
use fidrouter.Json.{Json, str, obj, end}
use fidrouter.Env.{Env}
use fidrouter.Exec.{Exec, pure, lift, ◌>>=◌, ◌>>◌}
use fidrouter.Quote.Parse.{ParsedTdxQuote, parse_tdx_quote, is_tdx}
use fidrouter.Quote.Token.{TcbResult, TrustAuthority}
use fidrouter.Quote.TrustAuthority

-- The subclasses of `QuoteVerifierBackend`; `custom` is one that the user of the SDK writes.
pub data Backend : Type 0 where
  stub : Backend
  qvl : Text → Backend
  trust_authority : TrustAuthority → Backend
  custom : (Bytes → Result TcbResult) → Backend

abbrev pub stub_result : TcbResult
stub_result = record {
  verified = false;
  tcb_status = str (lit "unknown");
  detail = lit "StubBackend: crypto NOT verified";
  claims = obj end;
}

with_authority : Result TcbResult × TrustAuthority → Result TcbResult × Backend
with_authority (r, ita) = (r, trust_authority ita)

-- `backend.verify(raw_quote)`
unfoldable pub run_backend : Env → Bytes → Exec Backend TcbResult
unfolding with_authority
run_backend env raw stub = (ok stub_result, stub)
run_backend env raw (qvl pccs_url) = (err not_implemented, qvl pccs_url)
run_backend env raw (trust_authority ita) = with_authority (TrustAuthority.verify env raw ita)
run_backend env raw (custom f) = (f raw, custom f)

pub record VerifiedQuote : Type 0 where
  pub measurement : Text
  pub report_data : Bytes
  pub rtmr : List Bytes
  pub tcb_status : Json
  pub backend_verified : Bool

unfoldable pub measurement_of : ParsedTdxQuote → Text
measurement_of q = hex q.mrtd_bytes

-- `expected is not None and report_data[:len(expected)] != expected`
unfoldable pub is_unbound : Bytes → Option Bytes → Bool
is_unbound report_data none = false
is_unbound report_data (some expected) = not (same (take (length expected) report_data) expected)

unfoldable pub verify_tdx_quote :
    Env → Bytes → Text → Option Bytes → Bool → Exec Backend VerifiedQuote
unfolding measurement_of
verify_tdx_quote env raw pinned expected allow_unverified = do
  q ← lift (parse_tdx_quote raw)
  lift (guard (is_tdx q) (dcap (lit "not a TDX quote (tee_type=")))
  tcb ← run_backend env raw
  lift (
      refuse (not tcb.verified && not allow_unverified)
        (dcap (lit "quote crypto NOT verified by backend: " ++ tcb.detail)))
  let meas = measurement_of q
  lift (
      refuse (not (same pinned []) && not (same meas pinned))
        (dcap (lit "measurement mismatch: got " ++ (meas ++ (lit ", pinned " ++ pinned)))))
  lift (
      refuse (is_unbound q.report_data expected)
        (dcap (lit "report_data not bound to expected nonce||pubkey")))
  pure (record {
    measurement = meas;
    report_data = q.report_data;
    rtmr = q.rtmr;
    tcb_status = tcb.tcb_status;
    backend_verified = tcb.verified;
  })
