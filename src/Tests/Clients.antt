-- ===== src/Tests/Clients.antt =====
-- The registry's answers, read by the drop-in client and by the command line.
use fidrouter.Base.{lit, ok, refl, same, true, none, if◌then◌else◌}
use fidrouter.Text.Strip.{rstrip}
use fidrouter.Json.{Json, str, arr, obj, nil, cons, end, field, get_or, as_text, truthy}
use fidrouter.Sdk.OpenAi.{row_matches, row_measurement, find_measurement, rows_of, resolve_expected}
use fidrouter.Sdk.OpenAi.Laws.{Published, resolve_expected-Published}
use fidrouter.Sdk.Tools.{lookup, build_of, Checked, attested_with, attempted, verify_endpoint}
use fidrouter.Sdk.Tools.Laws.{EndpointVerified, verify_endpoint_sound}
use fidrouter.Text.Hex.{hex, hex_digit}
use fidrouter.Text.Utf8.{encode}
use fidrouter.Text.Base64.{b64_decode}
use fidrouter.Text.Strip.{starts_with}
use fidrouter.Json.{item, is_text}
use fidrouter.Env.{Env}
use fidrouter.Client.State.{new_client, http_get}
use fidrouter.Client.Binding.{tls_binding, bytes_item}
use fidrouter.Client.Mock.{verify_mock}
use fidrouter.Client.Attest.{dispatch, attest_and_verify}
use fidrouter.Tests.Toy.{env, mock}

abbrev status : Json
status = arr (
    cons (obj (field (lit "base_url") (str (lit "a")) end)) (
      cons
        (obj (field (lit "base_url") (str (lit "b/")) (field (lit "expected") (str (lit "m")) end)))
        nil))

resolve_expected-Published_example : Published (env status) (lit "r") (lit "b") (str (lit "m"))
unfolding resolve_expected rows_of find_measurement row_matches row_measurement get_or as_text
    truthy rstrip same
resolve_expected-Published_example =
    resolve_expected-Published (env status) (lit "r") (lit "b") (str (lit "m")) refl

abbrev builds : Json
builds = obj (
    field (lit "builds") (obj (field (lit "m") (obj (field (lit "tag") (str (lit "v1")) end)) end))
      end)

-- A registry beside the development enclave.
abbrev listed : Env
listed = record (env mock) {
  fetch = λ r. if same r.url (lit "p/api/registry") then ok builds else ok mock;
}

abbrev report : Checked
report = record {
  base_url = lit "u";
  measurement = str (lit "m");
  in_registry = true;
  ok_flag = true;
  failure = none;
}

verify_endpoint_sound_example : EndpointVerified listed (lit "p") (lit "u/") report
unfolding verify_endpoint get_or build_of lookup truthy attempted attested_with as_text new_client
    attest_and_verify dispatch http_get verify_mock tls_binding bytes_item item b64_decode is_text
    encode hex hex_digit same starts_with rstrip
verify_endpoint_sound_example = verify_endpoint_sound listed (lit "p") (lit "u/") report refl refl
