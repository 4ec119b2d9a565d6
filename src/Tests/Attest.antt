-- ===== src/Tests/Attest.antt =====
-- The client against a machine of each kind.
use fidrouter.Base.{
  Text, lit, replicate, false, none, some, slice, same, [], ◌∷◌, ok, err, pos, length, ◌<◌, ◌≤◌,
  ◌⊎◌, inl, inr, ◌≡◌, refl,
}
use fidrouter.Text.Hex.{hex, hex_digit}
use fidrouter.Text.Base64.{b64_decode, b64url}
use fidrouter.Text.Utf8.{encode}
use fidrouter.Text.Utf8.Decode.{decode}
use fidrouter.Text.Strip.{starts_with}
use fidrouter.Json.Loads.{loads}
use fidrouter.Json.{str, bool, num, item, get_or, as_text, is_text, truthy, contains_text}
use fidrouter.Json.Equal.{json_equal}
use fidrouter.Json.Numbers.{to_int}
use fidrouter.Text.Decimal.{show_int}
use fidrouter.Receipt.Escape.{jstr}
use fidrouter.Json.Dump.{dumps}
use fidrouter.Exec.{Returns}
use fidrouter.Jwt.{split_token, decode_part, select_key, rsa_numbers, has_expired}
use fidrouter.Quote.Parse.{parse_tdx_quote, is_tdx, cut_fields, shortest, too_short}
use fidrouter.Quote.Parse.Bounds.{WellSized, parse_tdx_quote_total}
use fidrouter.Quote.Token.{TcbResult}
use fidrouter.Quote.Policy.{stub}
use fidrouter.Quote.Policy.Laws.{
  Policy, verify_tdx_quote_sound, verify_tdx_quote_complete, not-verify_tdx_quote-stub,
}
use fidrouter.Quote.Policy.{run_backend, is_unbound, measurement_of, verify_tdx_quote}
use fidrouter.Receipt.Canonical.{canonical_receipt}
use fidrouter.Client.State.{http_get, http_post}
use fidrouter.Client.Binding.{bytes_item, tls_binding}
use fidrouter.Client.Mock.{verify_mock}
use fidrouter.Client.Mock.Laws.{MockVerified, verify_mock_sound}
use fidrouter.Client.Confidential.{cached_jwks, cs_verify_jwt, verify_cs}
use fidrouter.Client.Confidential.Token.{
  require_rs256, check_cs_token, nonce_in, image_digest, check_claims,
}
use fidrouter.Client.Confidential.Laws.{CsVerified, verify_cs_sound}
use fidrouter.Client.Tdx.{run_policy, verify_tdx}
use fidrouter.Client.Tdx.Laws.{TdxVerified, verify_tdx_sound}
use fidrouter.Client.Attest.{dispatch, attest_and_verify}
use fidrouter.Client.Attest.Laws.{Verified, asked, attest_and_verify_sound}
use fidrouter.Client.Infer.{prompt_bytes, infer}
use fidrouter.Client.Infer.Reply.{
  InferResult, channel_key, seal, open_sealed, check_receipt, read_result, check_reply,
}
use fidrouter.Client.Infer.Laws.{Completed, infer_sound}
use fidrouter.Client.Infer.Posts.{Discreet, infer_sends}
use fidrouter.Tests.Toy.{
  tcb, tdx_client, quote, quote_text, backend, verified, env, client, channel, mock, confidential,
  tdx, receipt,
}

abbrev nonce : Text
nonce = b'0' ∷ b'9' ∷ []

verify_mock_sound_example : MockVerified (env mock) client mock nonce channel
unfolding verify_mock tls_binding get_or truthy bytes_item item b64_decode as_text is_text encode
    hex hex_digit
verify_mock_sound_example = verify_mock_sound (env mock) client mock nonce channel refl

verify_cs_sound_example : CsVerified (env confidential) client confidential nonce channel
unfolding verify_cs tls_binding get_or truthy bytes_item item b64_decode as_text is_text hex decode
    cs_verify_jwt split_token decode_part b64url require_rs256 cached_jwks check_cs_token select_key
    rsa_numbers check_claims has_expired nonce_in contains_text image_digest json_equal hex_digit
    loads
verify_cs_sound_example =
    verify_cs_sound (env confidential) client client confidential nonce channel refl

decoded : b64_decode quote_text ≡ ok quote
unfolding b64_decode
decoded = refl

accepted :
    Returns
      (verify_tdx_quote (env tdx) quote (replicate 96 b'0') (some (4 ∷ [])) false)
      backend
      verified
      backend
unfolding verify_tdx_quote parse_tdx_quote is_tdx run_backend is_unbound hex hex_digit
    measurement_of slice same
accepted = refl

decoded_keys :
    (b64_decode (lit "MDk=") ≡ ok nonce)
    × (b64_decode (lit "AQ==") ≡ ok (1 ∷ []))
    × (b64_decode (lit "Ag==") ≡ ok (2 ∷ []))
unfolding b64_decode
decoded_keys = (refl, refl, refl)

tdx_run : Returns (verify_tdx (env tdx) tdx nonce) tdx_client channel tdx_client
unfolding verify_tdx tls_binding get_or truthy bytes_item item as_text run_policy same
tdx_run = rw (decoded, decoded_keys.0, decoded_keys.1, decoded_keys.2, accepted)

verify_tdx_sound_example : TdxVerified (env tdx) tdx_client tdx nonce channel
verify_tdx_sound_example =
    verify_tdx_sound (env tdx) tdx_client tdx_client tdx nonce channel tdx_run

verify_tdx_quote_sound_example :
    (t : TcbResult) × Returns (run_backend (env tdx) quote) backend t backend
    × Policy quote (replicate 96 b'0') (some (4 ∷ [])) false t verified
verify_tdx_quote_sound_example =
    verify_tdx_quote_sound (env tdx) quote (replicate 96 b'0') (some (4 ∷ [])) false backend backend
      verified accepted

policy : Policy quote (replicate 96 b'0') (some (4 ∷ [])) false tcb verified
unfolding parse_tdx_quote slice hex hex_digit
policy = record {
  quote = cut_fields quote;
  quote_eq = refl;
  tdx = refl;
  checked = inl refl;
  pinned_eq = inr refl;
  bound = refl;
  result = refl;
}

verify_tdx_quote_complete_example :
    Returns
      (verify_tdx_quote (env tdx) quote (replicate 96 b'0') (some (4 ∷ [])) false)
      backend
      verified
      backend
unfolding run_backend
verify_tdx_quote_complete_example =
    verify_tdx_quote_complete (env tdx) quote (replicate 96 b'0') (some (4 ∷ [])) false backend
      backend tcb verified refl policy

not-verify_tdx_quote-stub_example :
    ¬ Returns (verify_tdx_quote (env tdx) quote [] none false) stub verified stub
not-verify_tdx_quote-stub_example = not-verify_tdx_quote-stub (env tdx) quote [] none verified stub

parse_tdx_quote_total_example :
    (length quote < shortest) × (parse_tdx_quote quote ≡ err (too_short quote))
    ⊎ (shortest ≤ length quote)
      × (parse_tdx_quote quote ≡ ok (cut_fields quote))
      × WellSized (length quote) (cut_fields quote)
parse_tdx_quote_total_example = parse_tdx_quote_total quote

attested : Returns (attest_and_verify (env mock)) client channel (asked (env mock) client)
unfolding attest_and_verify dispatch http_get verify_mock tls_binding get_or truthy bytes_item item
    b64_decode as_text is_text encode hex hex_digit same starts_with
attested = refl

attest_and_verify_sound_example : Verified (env mock) (asked (env mock) client) channel
attest_and_verify_sound_example =
    attest_and_verify_sound (env mock) client (asked (env mock) client) channel attested

abbrev result : InferResult
result = record {
  completion = str (lit "hi");
  cache_hit = bool false;
  account = str (lit "a");
  affinity = str (lit "f");
  model = str (lit "m1");
  prompt_tokens = num (pos 2);
  completion_tokens = num (pos 3);
  receipt = receipt;
}

infer_sound_example : Completed (env mock) client (lit "m1") (lit "p") (str (lit "q")) result
unfolding infer attest_and_verify dispatch http_get verify_mock tls_binding get_or truthy bytes_item
    item b64_decode as_text is_text encode hex hex_digit same starts_with channel_key prompt_bytes
    seal http_post check_reply check_receipt read_result open_sealed canonical_receipt dumps to_int
    show_int jstr loads
infer_sound_example =
    infer_sound (env mock) client (infer (env mock) (lit "m1") (lit "p") (str (lit "q")) client).1
      (lit "m1") (lit "p") (str (lit "q")) result refl

infer_sends_example :
    Discreet
      (env mock)
      client
      (lit "m1")
      (lit "p")
      (str (lit "q"))
      (infer (env mock) (lit "m1") (lit "p") (str (lit "q")) client)
infer_sends_example = infer_sends (env mock) client (lit "m1") (lit "p") (str (lit "q"))
