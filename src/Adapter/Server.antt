-- ===== src/Adapter/Server.antt =====
-- The handler `H`: `POST /exchange` trades a gateway key for a capability token.
pub mod Laws
pub mod Bodies
use fidrouter.Base.{
  ℕ, Text, Bytes, lit, Bool, true, false, not, Option, none, some, List, [], ◌∷◌, ◌++◌, Result, ok,
  err, Error, unavailable, ◌>>=◌, take, same, among, ℤ, pos, negsuc, is_zero, if◌then◌else◌,
}
use fidrouter.Text.Strip.{strip}
use fidrouter.Json.{Json, null, bool, str, obj, end, field, get, as_text, or_else}
use fidrouter.Json.Loads.{loads}
use fidrouter.Json.Numbers.{int_of_text}
use fidrouter.Adapter.Verdict.{Verdict}
use fidrouter.Adapter.Token.{
  Host, Settings, texts, or_default, mint_capability, tenant_for, token_ttl,
}

-- What `_send` is given: it writes the status, a content type and the JSON text of the body.
pub record Sent : Type 0 where
  pub code : ℕ
  pub body : Json

pub record Post : Type 0 where
  pub path : Text
  pub content_length : Option Text
  pub payload : Bytes

abbrev pub failure : ℕ → Text → Sent
failure code m = record { code = code; body = obj (field (lit "error") (str m) end) }

-- `int(self.headers.get("Content-Length", "0") or "0")`
unfoldable pub body_length : Option Text → Result ℤ
body_length none = ok (pos 0)
body_length (some []) = ok (pos 0)
body_length (some (c ∷ s)) = int_of_text (c ∷ s)

-- `self.rfile.read(n)`, which for a negative number reads to the end.
abbrev read : ℤ → Bytes → Bytes
read (pos n) bytes = take n bytes
read (negsuc n) bytes = bytes

unfoldable pub read_body : Host → ℤ → Bytes → Result Json
read_body h n bytes = if is_zero n then ok (obj end) else loads h.floats (read n bytes)

-- `", ".join(groups)`
abbrev joined : List Text → Text
joined [] = []
joined (g ∷ []) = g
joined (g ∷ h ∷ gs) = g ++ (lit ", " ++ joined (h ∷ gs))

abbrev pub is_empty : List Text → Bool
is_empty [] = true
is_empty (g ∷ gs) = false

-- The gate of the verified lane: the answer to a key that it stops.
unfoldable pub group_gate : Settings → Verdict → Option Sent
group_gate s v = if is_empty s.allowed_groups then none else elim v.group [
  | none ↦ some (
      failure 503 (
        lit
          "cannot determine this key's group, refusing to mint (fail-closed). Have the validator return `group`."))
  | some g ↦
      if among g s.allowed_groups
      then none
      else some (record {
        code = 403;
        body = obj (
            field (lit "error")
              (str (
                lit "key is in group '"
                ++ (g
                    ++ (lit "', which is not enabled for the verified (enclave) lane. Allowed: "
                        ++ (joined s.allowed_groups ++ lit ".")))))
              (field (lit "group") (str g)
                (field (lit "allowed_groups") (texts s.allowed_groups) end)));
      })
]

-- An unknown quota is the cap, or nothing.
unfoldable pub known_quota : Settings → Option ℕ → Option ℕ
known_quota s (some w) = some w
known_quota s none = if same s.quota_unknown (lit "refuse") then none else some s.quota_cap

abbrev pub granted : Settings → Verdict → Text → Text → Sent
granted s v tok tenant = record {
  code = 200;
  body = obj (
      field (lit "capability_token") (str tok) (
        field (lit "tenant") (str tenant) (
          field (lit "group") (elim v.group [ none ↦ null | some g ↦ str g ])
            (field (lit "enclave_url") (str s.enclave_url) (
              field (lit "expected_measurement") (str s.expected_measurement) (
                field (lit "verify_url") (str s.verify_url) (
                  field (lit "models") (texts (or_default v.models s.models)) (
                    field (lit "note")
                      (str (
                        lit
                          "verify the enclave (SDK) then call it DIRECTLY with this token; cp-adapter and your gateway never see your prompt."))
                      end))))))));
}

abbrev pub subject_or : Verdict → Text → Text
subject_or v sk = if same v.subject [] then sk else v.subject

-- The amount of the token, in the gateway's unit: `int(remaining * QUOTA_PER_USD)`
unfoldable pub token_amount : Host → Settings → ℕ → Result ℤ
token_amount h s remaining = do
  per_usd ← h.floats.of_int s.quota_per_usd
  h.floats.truncate (h.floats.times remaining per_usd)

unfoldable pub grant : Host → Settings → Text → Verdict → ℕ → Result Sent
grant h s sk v remaining = do
  tenant ← tenant_for h (subject_or v sk)
  ttl ← token_ttl h s v.expires_at
  max_tok ← token_amount h s remaining
  tok ← mint_capability h s tenant max_tok v.models ttl
  ok (granted s v tok tenant)

-- The rest of the handler, for a verdict that says yes: from the quota on, from the gate on, and all.
unfoldable pub after_quota : Host → Settings → Text → Verdict → Option ℕ → Result Sent
after_quota h s sk v (some remaining) = grant h s sk v remaining
after_quota h s sk v none = ok (
    failure 503 (
      lit
        "the gateway did not report remaining quota, refusing to mint. Set QUOTA_UNKNOWN=cap:<usd> to allow a bounded token instead."))

unfoldable pub after_gate : Host → Settings → Text → Verdict → Option Sent → Result Sent
after_gate h s sk v (some stopped) = ok stopped
after_gate h s sk v none = after_quota h s sk v (known_quota s v.remaining_usd)

unfoldable pub admit : Host → Settings → Text → Verdict → Result Sent
admit h s sk v = after_gate h s sk v (group_gate s v)

abbrev reason_suffix : Text → Text
reason_suffix reason = if same reason [] then [] else lit ": " ++ reason

unfoldable pub answer_verdict : Host → Settings → Text → Result Verdict → Result Sent
unfolding admit
answer_verdict h s sk (err (unavailable m)) = ok (record {
  code = 503;
  body = obj (
      field (lit "error") (str (lit "gateway/validator unavailable: " ++ m))
        (field (lit "validator") (str s.validator_kind) end));
})
answer_verdict h s sk (err e) = err e
answer_verdict h s sk (ok v) =
    if v.ok_flag
    then admit h s sk v
    else ok (failure 401 (lit "the gateway rejected this key" ++ reason_suffix v.reason))

unfoldable pub with_body : Host → Settings → Result Json → Result Sent
unfolding answer_verdict
with_body h s (err e) = ok (failure 400 (lit "bad json"))
with_body h s (ok body) = do
  key ← get body (lit "key")
  text ← as_text (or_else key (str []))
  let sk = strip text
  if same sk []
      then ok (failure 400 (lit "provide the user key as {\"key\":\"...\"}"))
      else answer_verdict h s sk (s.validate sk)

-- An exception that the handler does not catch ends the request without an answer.
unfoldable pub do_post : Host → Settings → Post → Result Sent
unfolding with_body
do_post h s r =
    if same r.path (lit "/exchange")
    then (do n ← body_length r.content_length; with_body h s (read_body h n r.payload))
    else ok (failure 404 (lit "not found"))

unfoldable pub do_get : Settings → Text → Sent
do_get s path =
    if same path (lit "/healthz")
    then record {
      code = 200;
      body = obj (
          field (lit "ok") (bool true) (
            field (lit "enclave") (str s.enclave_url) (
              field (lit "validator") (str s.validator_kind) (
                field (lit "allowed_groups") (texts s.allowed_groups)
                  (field (lit "quota_unknown") (str s.quota_unknown) end)))));
    }
    else failure 404 (lit "not found")
