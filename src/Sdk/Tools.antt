-- ===== src/Sdk/Tools.antt =====
-- What the command line (cli/fidrouter_cli/cli.py) and the MCP server (mcp/server.py) share: the check of
-- an endpoint and of a receipt against the public registry.
pub mod Laws
use fidrouter.Base.{
  ℕ, Text, lit, Bool, true, false, Option, none, some, [], ◌++◌, Result, ok, err, Error, type_error,
  ◌>>=◌, if◌then◌else◌,
}
use fidrouter.Text.Strip.{rstrip}
use fidrouter.Text.Base64.{b64_decode}
use fidrouter.Json.{Json, null, str, arr, obj, end, get, get_or, item, as_text, truthy}
use fidrouter.Json.Loads.{loads}
use fidrouter.Env.{Env}
use fidrouter.Client.State.{FidClient, Channel, new_client}
use fidrouter.Client.Attest.{attest_and_verify}
use fidrouter.Receipt.Verify.{ReceiptVerdict, verify_receipt}

-- `_get(u)`
abbrev pub get_json : Env → Text → Result Json
get_json env url = env.fetch (record { url = url; headers = []; body = none })

-- `_registry()`
abbrev pub registry : Env → Text → Result Json
registry env platform = get_json env (platform ++ lit "/api/registry")

-- `d.get(k)` for any value `k`: the keys are texts, and a list or a dict is no key.
unfoldable pub lookup : Json → Json → Result Json
lookup d (str k) = get d k
lookup d (arr xs) = err type_error
lookup d (obj fs) = err type_error
lookup d k = do _ ← get d []; ok null

-- `reg.get("builds", {}).get(meas)`
unfoldable pub build_of : Json → Json → Result Json
build_of reg meas = do builds ← get_or reg (lit "builds") (obj end); lookup builds meas

-- What is printed, or returned; the detail is the text of the failure.
pub record Checked : Type 0 where
  pub base_url : Text
  pub measurement : Json
  pub in_registry : Bool
  pub ok_flag : Bool
  pub failure : Option Error

-- The block that is tried. A measurement that is in the registry is a text.
unfoldable pub attested_with : Env → Text → Json → Result Channel
attested_with env base meas = do
  pin ← as_text meas
  c ← new_client (record {
    base_url = base;
    token = [];
    pin_measurement = pin;
    pin_idpub_hex = [];
    pccs_url = [];
    dcap_backend = none;
    dcap_allow_unverified = false;
    cs_audience = lit "fidrouter";
  })
  (attest_and_verify env c).0

-- `except Exception as e`
unfoldable pub attempted : Text → Json → Result Channel → Checked
attempted base meas (ok ch) = record {
  base_url = base;
  measurement = meas;
  in_registry = true;
  ok_flag = true;
  failure = none;
}
attempted base meas (err e) = record {
  base_url = base;
  measurement = meas;
  in_registry = true;
  ok_flag = false;
  failure = some e;
}

abbrev pub unlisted : Text → Json → Checked
unlisted base meas = record {
  base_url = base;
  measurement = meas;
  in_registry = false;
  ok_flag = false;
  failure = none;
}

-- `cmd_verify` and `verify_endpoint`
unfoldable pub verify_endpoint : Env → Text → Text → Result Checked
verify_endpoint env platform url = do
  reg ← registry env platform
  attestation ← get_json env (rstrip b'/' url ++ lit "/attestation?nonce=fid")
  meas ← get_or attestation (lit "measurement") (str [])
  build ← build_of reg meas
  ok (
      if truthy build
      then attempted (rstrip b'/' url) meas (attested_with env (rstrip b'/' url) meas)
      else unlisted (rstrip b'/' url) meas)

-- The exit status of `cmd_verify`
unfoldable pub exit_status : Checked → ℕ
exit_status r = if r.ok_flag then 0 else 1

pub record ReceiptReport : Type 0 where
  pub ok_flag : Bool
  pub known_measurement : Bool
  pub receipt : Json

-- `cmd_receipt` and `verify_receipt_tool`
unfoldable pub check_by_registry : Env → Text → Text → Result ReceiptReport
check_by_registry env platform receipt_b64 = do
  reg ← registry env platform
  bytes ← b64_decode receipt_b64
  signed ← loads env.floats bytes
  rec ← item signed (lit "receipt")
  meas ← get_or rec (lit "measurement") (str [])
  build ← build_of reg meas
  if truthy build
      then (do
        key ← item build (lit "identity_pub_hex")
        hex ← as_text key
        v ← verify_receipt env receipt_b64 hex
        ok (record { ok_flag = v.signature_ok; known_measurement = true; receipt = rec }))
      else ok (record { ok_flag = false; known_measurement = false; receipt = null })
