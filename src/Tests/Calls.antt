-- ===== src/Tests/Calls.antt =====
-- A verified call whose enclave is honest, and the programs that make it.
use fidrouter.Base.{
  Text, Bytes, lit, true, false, [], ◌∷◌, List, ◌++◌, ok, same, pos, replicate, ◌≡◌, refl,
  if◌then◌else◌, inr,
}
use fidrouter.Json.{Json, bool, num, str, obj, end, field, item}
use fidrouter.Json.Loads.{loads}
use fidrouter.Json.{get_or, as_text, is_text, truthy}
use fidrouter.Text.Utf8.{encode}
use fidrouter.Text.Base64.{b64_decode}
use fidrouter.Text.Hex.{hex, hex_digit}
use fidrouter.Text.Strip.{starts_with, rstrip}
use fidrouter.Json.Dump.{dumps}
use fidrouter.Json.Numbers.{to_int}
use fidrouter.Text.Decimal.{show_int}
use fidrouter.Receipt.Escape.{jstr}
use fidrouter.Exec.{Returns}
use fidrouter.Receipt.Canonical.{canonical_receipt}
use fidrouter.Client.State.{posted, http_get, http_post, new_client}
use fidrouter.Client.Binding.{bytes_item, tls_binding}
use fidrouter.Client.Mock.{verify_mock}
use fidrouter.Client.Attest.{dispatch, attest_and_verify}
use fidrouter.Client.Attest.Laws.{asked}
use fidrouter.Client.Infer.{prompt_bytes, request_body, infer}
use fidrouter.Client.Infer.Reply.{
  InferResult, channel_key, seal, open_sealed, read_result, check_receipt, check_reply,
}
use fidrouter.Client.Infer.Complete.{HonestReply, infer_complete}
use fidrouter.Client.Infer.{chat}
use fidrouter.Client.Infer.Messages.{split_messages}
use fidrouter.Env.{Env}
use fidrouter.Json.Plus.{plus}
use fidrouter.Sdk.Completion.{ChatCompletion, choice_of, create}
use fidrouter.Sdk.Completion.Laws.{Proved, create-Proved}
use fidrouter.Sdk.Commands.{pin_text, token_text, cmd_call}
use fidrouter.Sdk.Commands.Laws.{CallProved, cmd_call-CallProved}
use fidrouter.Tests.Toy.{env, mock, client, channel, receipt}

abbrev receipt_body : Bytes
receipt_body =
    lit "{\"ts_unix\":7,\"tenant\":\"t\",\"model\":\"m1\",\"account\":\"a\",\"req_hash\":\"x\","
    ++ lit
        "\"resp_hash\":\"y\",\"prompt_tokens\":2,\"completion_tokens\":3,\"cache_hit\":false,\"measurement\":\"m\"}"

-- What the enclave of this repository answers: compact JSON in the order of pkg/wire, with a newline.
abbrev plain : Bytes
plain =
    lit "{\"completion\":\"hi\",\"cache_hit\":false,\"prompt_tokens\":2,\"completion_tok"
    ++ (lit "ens\":3}")

abbrev sealed_b64 : Text
sealed_b64 =
    lit "AAAAAAAAAAAAAAAAeyJjb21wbGV0aW9uIjoiaGkiLCJjYWNoZV9oaXQiOmZhbHNlLCJwcm"
    ++ (lit "9tcHRfdG9rZW5zIjoyLCJjb21wbGV0aW9uX3Rva2VucyI6M30=")

abbrev wire_answer : Bytes
wire_answer =
    (lit "{\"sealed_resp\":\"AAAAAAAAAAAAAAAAeyJjb21wbGV0aW9uIjoiaGkiLCJjYWNoZV9oaX"
      ++ (lit "QiOmZhbHNlLCJwcm9tcHRfdG9rZW5zIjoyLCJjb21wbGV0aW9uX3Rva2VucyI6M30=\",\"r"
          ++ (lit
                "eceipt\":{\"receipt\":{\"ts_unix\":7,\"tenant\":\"t\",\"model\":\"m1\",\"account\":\"a"
              ++ (lit
                    "\",\"req_hash\":\"x\",\"resp_hash\":\"y\",\"prompt_tokens\":2,\"completion_tokens\""
                  ++ (lit
                        ":3,\"cache_hit\":false,\"measurement\":\"m\"},\"sig\":\"Aw==\"},\"route\":{\"accoun"
                      ++ (lit "t\":\"a\",\"affinity\":true,\"cache_hit\":false}}"))))))
    ++ 10 ∷ []

abbrev enclave : Env
enclave = record (env mock) { post = λ url body. ok (200, wire_answer) }

abbrev route : Json
route = obj (
    field (lit "account") (str (lit "a"))
      (field (lit "affinity") (bool true) (field (lit "cache_hit") (bool false) end)))

abbrev signed_receipt : Json
signed_receipt = obj (field (lit "receipt") receipt (field (lit "sig") (str (lit "Aw==")) end))

abbrev result : InferResult
result = record {
  completion = str (lit "hi");
  cache_hit = bool false;
  account = str (lit "a");
  affinity = bool true;
  model = str (lit "m1");
  prompt_tokens = num (pos 2);
  completion_tokens = num (pos 3);
  receipt = receipt;
}

abbrev key : Bytes
key = 12 ∷ []

abbrev prompt : Bytes
prompt = lit "{\"model\": \"m1\", \"prefix\": \"p\", \"suffix\": \"q\"}"

abbrev sealed : Bytes
sealed = replicate 12 0 ++ prompt

abbrev ur : Json
ur = obj (
    field (lit "completion") (str (lit "hi")) (
      field (lit "cache_hit") (bool false) (
        field (lit "prompt_tokens") (num (pos 2))
          (field (lit "completion_tokens") (num (pos 3)) end))))

honest :
    HonestReply enclave (asked enclave client) channel key (lit "s") (lit "m1") wire_answer result
unfolding encode b64_decode canonical_receipt open_sealed item same show_int to_int jstr truthy
    loads
honest = record {
  out = obj (
      field (lit "sealed_resp") (str sealed_b64)
        (field (lit "receipt") signed_receipt (field (lit "route") route end)));
  raw_eq = refl;
  signed_receipt = signed_receipt;
  signed_receipt_eq = refl;
  receipt_eq = refl;
  sig_b64 = lit "Aw==";
  sig_b64_eq = refl;
  sig = 3 ∷ [];
  sig_eq = refl;
  body = receipt_body;
  body_eq = refl;
  signed = refl;
  measured = inr refl;
  named = refl;
  model_eq = refl;
  route = route;
  route_eq = refl;
  account_eq = refl;
  affinity_eq = refl;
  sealed_b64 = sealed_b64;
  sealed_b64_eq = refl;
  sealed = replicate 12 0 ++ plain;
  sealed_eq = refl;
  plain = plain;
  opened = refl;
  ur = ur;
  plain_eq = refl;
  completion_eq = refl;
  cache_hit_eq = refl;
  prompt_tokens_eq = refl;
  completion_tokens_eq = refl;
}

attested : Returns (attest_and_verify enclave) client channel (asked enclave client)
unfolding attest_and_verify dispatch http_get verify_mock tls_binding get_or truthy bytes_item item
    b64_decode as_text is_text encode hex hex_digit same starts_with
attested = refl

prepared :
    (channel_key enclave channel.ephemeral_pub ≡ ok key)
    × (prompt_bytes enclave (lit "m1") (lit "p") (str (lit "q")) ≡ ok prompt)
    × (encode (lit "s") ≡ ok (lit "s"))
    × (seal enclave key prompt (lit "s") ≡ ok sealed)
unfolding channel_key prompt_bytes encode dumps seal
prepared = (refl, refl, refl, refl)

infer_complete_example :
    Returns
      (infer enclave (lit "m1") (lit "p") (str (lit "q")))
      client
      result
      (record (asked enclave client) {
        log =
            (asked enclave client).log
            ++ posted (lit "u/v1/infer") (request_body (lit "s") (5 ∷ []) (lit "k") sealed) ∷ [];
      })
infer_complete_example =
    infer_complete enclave client (asked enclave client) channel (lit "m1") (lit "p")
      (str (lit "q")) (lit "s") key prompt (lit "s") sealed wire_answer result attested prepared.0
      prepared.1 refl prepared.2 prepared.3 refl honest

abbrev messages : List Json
messages =
    obj (field (lit "role") (str (lit "user")) (field (lit "content") (str (lit "q")) end)) ∷ []

abbrev completion : ChatCompletion
completion = record {
  object = lit "chat.completion";
  model = lit "m1";
  choices = choice_of (str (lit "hi")) ∷ [];
  usage = record {
    prompt_tokens = num (pos 2);
    completion_tokens = num (pos 3);
    total_tokens = num (pos 5);
  };
  fid = record {
    verified = true;
    measurement = str (lit "m");
    account = str (lit "a");
    cache_hit = bool false;
    receipt = receipt;
  };
}

create-Proved_example : Proved (env mock) client (lit "m1") messages completion
unfolding create plus chat attest_and_verify dispatch http_get verify_mock tls_binding get_or truthy
    bytes_item item b64_decode as_text is_text encode hex hex_digit same starts_with channel_key
    prompt_bytes seal http_post check_reply check_receipt read_result open_sealed canonical_receipt
    dumps to_int show_int jstr loads split_messages
create-Proved_example =
    create-Proved (env mock) client (create (env mock) (lit "m1") messages client).1 (lit "m1")
      messages completion refl

abbrev exchanged : Json
exchanged = obj (
    field (lit "capability_token") (str (lit "k")) (
      field (lit "enclave_url") (str (lit "u/"))
        (field (lit "expected_measurement") (str (lit "m")) end)))

-- The exchange beside the development enclave.
abbrev platform : Env
platform = record (env mock) {
  fetch = λ r. if same r.url (lit "p/api/exchange") then ok exchanged else ok mock;
}

cmd_call-CallProved_example :
    CallProved platform (lit "p") 1 (lit "k") (lit "m1") (lit "q") (str (lit "hi"))
unfolding cmd_call pin_text token_text new_client rstrip chat attest_and_verify dispatch http_get
    verify_mock tls_binding get_or truthy bytes_item item b64_decode as_text is_text encode hex
    hex_digit same starts_with channel_key prompt_bytes seal http_post check_reply check_receipt
    read_result open_sealed canonical_receipt dumps to_int show_int jstr loads split_messages
cmd_call-CallProved_example =
    cmd_call-CallProved platform (lit "p") 1 (lit "k") (lit "m1") (lit "q") (str (lit "hi")) refl
