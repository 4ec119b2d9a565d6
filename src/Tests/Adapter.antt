-- ===== src/Tests/Adapter.antt =====
-- The adapter with a validator that accepts one key.
use fidrouter.Base.{
  among, Text, Bytes, lit, true, false, none, some, [], ◌∷◌, ◌++◌, ok, err, value_error, same,
  if◌then◌else◌, pos, ◌≡◌, refl, All, arith, ◌<◌,
}
use fidrouter.Text.Utf8.{encode}
use fidrouter.Text.Base64.{b64u}
use fidrouter.Text.Hex.{hex, hex_digit}
use fidrouter.Text.Strip.{strip, rstrip, lower, starts_with, is_infix}
use fidrouter.Text.Decimal.{show_int}
use fidrouter.Json.Loads.{loads}
use fidrouter.Json.{num, obj, end, field, get_or, as_text, truthy, has_key}
use fidrouter.Json.Numbers.{int_of_text}
use fidrouter.Json.Convert.{to_float}
use fidrouter.Json.Dump.{dumps, dumps_compact}
use fidrouter.Adapter.Url.{has_scheme}
use fidrouter.Adapter.Verdict.{Verdict}
use fidrouter.Adapter.Gateway.{Response, answer, failed, not_run, World, HttpConfig, validate_exec}
use fidrouter.Adapter.Gateway.Laws.{HttpOutcome, Answered, validators-Answered}
use fidrouter.Adapter.NewApi.{NewApiConfig, mentions, admin_lookup, accept_limit, validate_newapi}
use fidrouter.Adapter.NewApi.Laws.{Billed, validate_newapi-Billed}
use fidrouter.Adapter.Token.{Host, Settings, mint_capability, tenant_for, token_ttl, claims}
use fidrouter.Adapter.Token.Laws.{Bounded, token_ttl-Bounded, Readable, mint_capability-Readable}
use fidrouter.Adapter.Server.{
  Post, body_length, read_body, group_gate, known_quota, granted, token_amount, grant, after_quota,
  after_gate, admit, do_post, answer_verdict, failure,
}
use fidrouter.Adapter.Server.Laws.{Exchanged, do_post_grants}
use fidrouter.Adapter.Config.{Environ, newapi, newapi_config, from_env, quota_policy}
use fidrouter.Adapter.Config.Laws.{Chosen, quota_policy-Chosen, Usable, from_env-Usable}
use fidrouter.Adapter.Server.Bodies.{do_post-keyed}
use fidrouter.Sdk.OpenAi.Exchange.{do_post-exchange_body}
use fidrouter.Tests.Toy.{floats}

abbrev host : Host
host = record { sign = λ b. 1 ∷ 2 ∷ []; sha256 = λ b. 171 ∷ []; now = 0; floats = floats }

abbrev verdict : Verdict
verdict = record {
  ok_flag = true;
  subject = [];
  remaining_usd = some 5;
  group = some (lit "vip");
  models = [];
  expires_at = some (pos 9);
  reason = [];
}

abbrev settings : Settings
settings = record {
  enclave_url = lit "e";
  expected_measurement = lit "m";
  verify_url = lit "v";
  default_pool = lit "shared";
  models = lit "m1" ∷ [];
  ttl = pos 3600;
  quota_per_usd = pos 500000;
  allowed_groups = lit "vip" ∷ [];
  validator_kind = lit "http";
  validate = λ key. if same key (lit "k") then ok verdict else err value_error;
  quota_unknown = lit "refuse";
  quota_cap = 0;
}

abbrev token : Text
token =
    b64u (
      lit
        "{\"tenant\":\"u_ab\",\"pool\":\"shared\",\"models\":[\"m1\"],\"max_tok\":5,\"exp\":60,\"isolated\":false}")
    ++ b'.' ∷ b64u (1 ∷ 2 ∷ [])

abbrev post : Post
post = record {
  path = lit "/exchange";
  content_length = some (lit "13");
  payload = lit "{\"key\":\" k \"}";
}

signs_bytes : (b : Bytes) → All (λ c. c < 256) (host.sign b)
signs_bytes b = (omega arith, (omega arith, tt))

minted : mint_capability host settings (lit "u_ab") (pos 5) [] (pos 60) ≡ ok token
unfolding mint_capability encode dumps_compact show_int
minted = refl

mint_capability-Readable_example :
    Readable host (claims settings (lit "u_ab") (pos 5) [] (pos 60)) token
mint_capability-Readable_example =
    mint_capability-Readable host settings (lit "u_ab") (pos 5) [] (pos 60) token signs_bytes
      (omega arith) (omega arith) ((omega arith), tt) minted

token_ttl-Bounded_example : Bounded (pos 3600) (pos 60)
unfolding token_ttl
token_ttl-Bounded_example = token_ttl-Bounded host settings (pos 9) (pos 60) refl refl

do_post_grants_example : Exchanged host settings post (granted settings verdict token (lit "u_ab"))
unfolding do_post same body_length int_of_text read_body get_or as_text truthy strip admit
    group_gate after_gate known_quota after_quota grant tenant_for token_ttl token_amount
    mint_capability encode dumps_compact show_int hex hex_digit among loads
do_post_grants_example =
    do_post_grants host settings post (granted settings verdict token (lit "u_ab")) refl refl

abbrev world : Response → World
world r = record { request = λ q. r; run = λ cmd input timeout. not_run; floats = floats }

abbrev http_cfg : HttpConfig
http_cfg = record { url = lit "http://v"; secret = [] }

validators-Answered_example :
    HttpOutcome (world failed) (lit "k") http_cfg
    × Answered
        (validate_exec (world failed) (lit "k") (record { cmd = lit "c"; timeout = lit "8" }))
validators-Answered_example =
    validators-Answered (world failed) (lit "k") http_cfg
      (record { cmd = lit "c"; timeout = lit "8" })

-- The request to an address without a scheme cannot be made.
schemes :
    (has_scheme (lit "http://v") ≡ true)
    × (has_scheme (lit "v/#http:") ≡ false)
    × (has_scheme (lit " <URL:https://v>") ≡ true)
unfolding has_scheme strip starts_with is_infix
schemes = (refl, refl, refl)

abbrev newapi_cfg : NewApiConfig
newapi_cfg = record {
  base = lit "http://b/";
  path = lit "/p";
  admin_token = [];
  admin_user_id = lit "1";
  quota_per_usd = lit "500000";
}

abbrev billing : World
billing = world (answer (obj (field (lit "hard_limit_usd") (num (pos 10)) end)))

abbrev billed : Verdict
billed = record {
  ok_flag = true;
  subject = lit "k";
  remaining_usd = some 0;
  group = none;
  models = [];
  expires_at = none;
  reason = [];
}

validate_newapi-Billed_example : Billed billing (lit "k") newapi_cfg billed
unfolding validate_newapi mentions has_key accept_limit get_or truthy to_float admin_lookup same
    rstrip
validate_newapi-Billed_example =
    validate_newapi-Billed billing (lit "k") newapi_cfg billed refl refl

abbrev environ : Environ
environ k = if same k (lit "NEWAPI_BASE") then some (lit "b") else none

quota_policy-Chosen_example : Chosen floats environ (lit "refuse", 0)
unfolding quota_policy same strip lower
quota_policy-Chosen_example = quota_policy-Chosen floats environ (lit "refuse", 0) refl

from_env-Usable_example : Usable environ (
  lit "newapi",
  newapi (record {
    base = lit "b";
    path = lit "/v1/dashboard/billing/subscription";
    admin_token = [];
    admin_user_id = lit "1";
    quota_per_usd = lit "500000";
  }),
)
unfolding from_env newapi_config same strip lower
from_env-Usable_example = from_env-Usable environ _ refl

do_post-keyed_example :
    do_post host settings (record {
      path = lit "/exchange";
      content_length = some (lit "12");
      payload = lit "{\"key\": \"k\"}" ++ lit "next";
    })
    ≡ answer_verdict host settings (lit "k") (ok verdict)
unfolding encode dumps body_length int_of_text strip same
do_post-keyed_example =
    do_post-keyed host settings (lit "k") (lit "{\"key\": \"k\"}") (lit "next") (some (lit "12"))
      (omega arith, tt) refl refl

do_post-exchange_body_example :
    do_post host settings (record {
      path = lit "/exchange";
      content_length = some (lit "31");
      payload = lit "{\"api_token\": \"k\", \"pool\": \"p\"}" ++ [];
    })
    ≡ ok (failure 400 (lit "provide the user key as {\"key\":\"...\"}"))
unfolding encode dumps body_length int_of_text
do_post-exchange_body_example =
    do_post-exchange_body host settings (lit "k") (lit "p")
      (lit "{\"api_token\": \"k\", \"pool\": \"p\"}") [] (some (lit "31")) (omega arith, tt)
      (omega arith, tt) refl refl
