-- ===== src/Deploy/Account.antt =====
-- deploy/gcp/gcp.py: the credentials, the assertion that is traded for a token, and what is made of the
-- answers.
use fidrouter.Base.{
  ℕ, ◌+◌, ◌-◌, ◌/◌, ◌%◌, Text, Bytes, lit, not, ◌&&◌, ◌||◌, Option, none, some, List, [], ◌∷◌, ◌++◌,
  Result, ok, err, gcp_error, unreachable, ◌>>=◌, ℤ, pos, ◌+ℤ◌, leb, ltb, ◌==◌, same, if◌then◌else◌,
}
use fidrouter.Text.Utf8.{encode}
use fidrouter.Text.Utf8.Decode.{decode}
use fidrouter.Text.Base64.{b64u, b64_decode}
use fidrouter.Text.Hex.{hex}
use fidrouter.Text.Decimal.{show_int}
use fidrouter.Text.Strip.{starts_with}
use fidrouter.Json.{
  Json, num, str, arr, cons, nil, obj, end, field, item, get, get_or, as_text, truthy,
}
use fidrouter.Json.Numbers.{to_int}
use fidrouter.Json.Dump.{dumps}
use fidrouter.Json.Loads.{loads, loads_text}
use fidrouter.Quote.Token.{first_item}
use fidrouter.Deploy.Settings.{Assignments, setting}
use fidrouter.Deploy.Machine.{HttpCall, Event, Answer, answered, status, lost, Machine}

-- `path and os.path.exists(path)`
abbrev usable_path : Machine → Assignments → Option Text
usable_path m env = elim (setting (lit "GOOGLE_APPLICATION_CREDENTIALS") env) [
  | none ↦ none
  | some p ↦ if not (same p []) && m.exists p then some p else none
]

abbrev usable_json : Assignments → Option Text
usable_json env = elim (setting (lit "GCP_SA_JSON") env) [
  | none ↦ none
  | some j ↦ if same j [] then none else some j
]

-- The credentials, from the file that the settings name or from the settings themselves.
unfoldable pub read_account : Machine → List Event → Assignments → Result Json
unfolding setting
read_account m events env = elim (usable_path m env) [
  | some p ↦ (do body ← m.read_file events p; loads_text m.floats body)
  | none ↦ elim (usable_json env) [
    | some j ↦ loads_text m.floats j
    | none ↦
        err
          (gcp_error (lit "no SA credentials (GOOGLE_APPLICATION_CREDENTIALS / GCP_SA_JSON)") 0 [])
  ]
]

abbrev google_token_uri : Text
google_token_uri = lit "https://oauth2.googleapis.com/token"

-- `sa.get("token_uri", …)`
unfoldable pub token_uri : Json → Result Json
token_uri sa = get_or sa (lit "token_uri") (str google_token_uri)

unfoldable pub token_address : Json → Result Text
unfolding token_uri
token_address sa = do u ← token_uri sa; as_text u

-- `header`, with the key's id if the account has one
unfoldable pub jwt_header : Json → Result Json
jwt_header sa = do
  kid ← get sa (lit "private_key_id")
  let rest = if truthy kid then field (lit "kid") kid end else end
  ok (obj (field (lit "alg") (str (lit "RS256")) (field (lit "typ") (str (lit "JWT")) rest)))

unfoldable pub jwt_claims : Json → ℤ → Result Json
unfolding token_uri
jwt_claims sa now = do
  email ← item sa (lit "client_email")
  aud ← token_uri sa
  ok (
      obj (
        field (lit "iss") email (
          field (lit "scope") (str (lit "https://www.googleapis.com/auth/cloud-platform")) (
            field (lit "aud") aud
              (field (lit "iat") (num now) (field (lit "exp") (num (now +ℤ pos 3600)) end))))))

-- The signed assertion: header, claims and signature.
unfoldable pub assertion : Machine → Json → ℤ → Result Text
unfolding jwt_header jwt_claims
assertion m sa now = do
  header ← jwt_header sa
  claims ← jwt_claims sa now
  h ← encode (dumps m.floats header)
  c ← encode (dumps m.floats claims)
  let si = b64u h ++ b'.' ∷ b64u c
  pem ← (do k ← item sa (lit "private_key"); as_text k)
  key ← encode pem
  sig ← m.sign_pem key si
  ok (si ++ b'.' ∷ b64u sig)

abbrev upper_hex : ℕ → ℕ
upper_hex d = if ltb d 10 then b'0' + d else b'A' + (d - 10)

-- `quote_plus` of one byte
unfoldable pub quote_byte : ℕ → Text
quote_byte b =
    if leb b'A' b && leb b b'Z'
      || leb b'a' b && leb b b'z'
      || leb b'0' b && leb b b'9'
      || b == b'_'
      || b == b'.'
      || b == b'-'
      || b == b'~'
    then b ∷ []
    else if b == 32
    then b'+' ∷ []
    else b'%' ∷ upper_hex (b / 16) ∷ upper_hex (b % 16) ∷ []

unfoldable pub quote_bytes : Bytes → Text
unfolding quote_byte
quote_bytes [] = []
quote_bytes (b ∷ bs) = quote_byte b ++ quote_bytes bs

-- `urlencode({"grant_type": …, "assertion": …}).encode()`; an assertion is ASCII.
unfoldable pub grant_form : Text → Bytes
unfolding quote_bytes
grant_form a =
    lit "grant_type="
    ++ (quote_bytes (lit "urn:ietf:params:oauth:grant-type:jwt-bearer")
        ++ (lit "&assertion=" ++ quote_bytes a))

abbrev pub exchange_call : Text → Text → HttpCall
exchange_call uri a = record {
  method = lit "POST";
  url = uri;
  headers = [];
  payload = some (grant_form a);
}

unfoldable pub exchanged : Answer → Result Bytes
exchanged (answered raw) = ok raw
exchanged (status code raw) = do
  body ← decode raw
  err (gcp_error (lit "token exchange failed") code body)
exchanged lost = err unreachable

-- `_TOKEN = (j["access_token"], now + int(j.get("expires_in", 3600)))`
unfoldable pub read_grant : Machine → ℤ → Bytes → Result (Json × ℤ)
read_grant m now raw = do
  j ← loads m.floats raw
  t ← item j (lit "access_token")
  e ← get_or j (lit "expires_in") (num (pos 3600))
  life ← to_int m.floats e
  ok (t, now +ℤ life)

-- `if url.startswith("/"): url = COMPUTE + url`
unfoldable pub absolute : Text → Text
unfolding starts_with
absolute url =
    if starts_with url (lit "/")
    then lit "https://compute.googleapis.com/compute/v1" ++ url
    else url

unfoldable pub encode_body : Machine → Option Json → Result (Option Bytes)
encode_body m none = ok none
encode_body m (some j) = do b ← encode (dumps m.floats j); ok (some b)

abbrev pub api_call : Text → Text → Option Bytes → Text → HttpCall
api_call method url body bearer = record {
  method = method;
  url = absolute url;
  headers =
      (lit "Authorization", lit "Bearer " ++ bearer)
      ∷ (lit "Content-Type", lit "application/json")
      ∷ [];
  payload = body;
}

-- `f"HTTP{e.code}"`
abbrev pub http_message : ℕ → Text
http_message code = lit "HTTP" ++ show_int (pos code)

-- `json.loads(body).get("error", {}).get("message", …)`
unfoldable pub error_message : Machine → ℕ → Text → Result Json
error_message m code body = do
  j ← loads_text m.floats body
  e ← get_or j (lit "error") (obj end)
  get_or e (lit "message") (str (http_message code))

-- The message of a `GcpError`: the empty text stands for a value that is no text.
abbrev pub message_or : ℕ → Result Json → Text
message_or code (ok (str s)) = s
message_or code (ok j) = []
message_or code (err e) = http_message code

unfoldable pub api_answer : Machine → Answer → Result Json
unfolding error_message same
api_answer m (answered raw) = if same raw [] then ok (obj end) else loads m.floats raw
api_answer m (status code raw) = do
  body ← decode raw
  err (gcp_error (message_or code (error_message m code body)) code body)
api_answer m lost = err unreachable

-- `inst["networkInterfaces"][0].get("accessConfigs", [{}])[0].get("natIP")`
unfoldable pub external_ip : Json → Result Json
unfolding first_item
external_ip inst = do
  nets ← item inst (lit "networkInterfaces")
  net ← first_item nets
  confs ← get_or net (lit "accessConfigs") (arr (cons (obj end) nil))
  conf ← first_item confs
  get conf (lit "natIP")

-- `base64.b64decode(k["identity_seed"]).hex()`
unfoldable pub seed_of : Json → Result Text
seed_of k = do
  s ← (do v ← item k (lit "identity_seed"); as_text v)
  bytes ← b64_decode s
  ok (hex bytes)
