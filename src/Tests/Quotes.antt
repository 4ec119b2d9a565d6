-- ===== src/Tests/Quotes.antt =====
-- Quotes and the tokens of the attestation service.
use fidrouter.Base.{lit, true, false, some, [], ◌∷◌, ok, ◌≡◌, refl, replicate, slice, same, arith}
use fidrouter.Json.{Json, obj, end, field, str, item, get_or, as_text, is_text, truthy}
use fidrouter.Json.Equal.{json_equal}
use fidrouter.Text.Base64.{b64url}
use fidrouter.Text.Strip.{lower}
use fidrouter.Text.Hex.{hex, hex_digit}
use fidrouter.Jwt.{split_token, decode_part, select_key, rsa_numbers, has_expired}
use fidrouter.Quote.Parse.{parse_tdx_quote}
use fidrouter.Quote.Parse.Layout.{Quote, Fits, quote_bytes}
use fidrouter.Quote.Parse.Laws.{parse_tdx_quote-quote_bytes}
use fidrouter.Quote.Token.{
  TcbResult, TrustAuthority, attest, pubkey_from_jwk, check_alg, check_token, token_mrtd,
  cross_check,
}
use fidrouter.Quote.TrustAuthority.{fetch_jwks, verify_token, verify}
use fidrouter.Quote.TrustAuthority.Laws.{Attested, verify_sound}
use fidrouter.Json.Loads.{loads}
use fidrouter.Tests.Toy.{env, quote, jwks}

abbrev parts : Quote
parts = record {
  version = 4;
  key_type = 2;
  tee_type = 0x81;
  header_rest = replicate 40 1;
  tee_tcb_svn = replicate 16 2;
  seam_to_xfam = replicate 120 3;
  mrtd = replicate 48 4;
  config_and_owner = replicate 144 5;
  rtmr0 = replicate 48 6;
  rtmr1 = replicate 48 7;
  rtmr2 = replicate 48 8;
  rtmr3 = replicate 48 9;
  report_data = replicate 64 10;
  signature = 11 ∷ 12 ∷ [];
  trailer = 13 ∷ [];
}

parts_fit : Fits parts
parts_fit = record {
  version_fits = omega arith;
  tee_type_fits = omega arith;
  signature_fits = omega arith;
  header_size = refl;
  svn_size = refl;
  seam_size = refl;
  mrtd_size = refl;
  config_size = refl;
  rtmr0_size = refl;
  rtmr1_size = refl;
  rtmr2_size = refl;
  rtmr3_size = refl;
  report_size = refl;
}

parse_tdx_quote-quote_bytes_example :
    parse_tdx_quote (quote_bytes parts)
    ≡ ok (record {
      version = 4;
      tee_type = 0x81;
      mrtd_bytes = replicate 48 4;
      rtmr = replicate 48 6 ∷ replicate 48 7 ∷ replicate 48 8 ∷ replicate 48 9 ∷ [];
      report_data = replicate 64 10;
      tcb_svn = replicate 16 2;
      signature_section = 11 ∷ 12 ∷ [];
    })
parse_tdx_quote-quote_bytes_example = parse_tdx_quote-quote_bytes parts parts_fit

abbrev ita : TrustAuthority
ita = record {
  api_key = lit "k";
  api_url = lit "a";
  portal_url = lit "p";
  ver = lit "v2";
  policy_ids = [];
  use_nonce = false;
  user_data_b64 = [];
  jwks = some jwks;
}

abbrev answer : Json
answer =
    obj
      (field (lit "token") (str (lit "eyJhbGciOiJSUzI1NiIsImtpZCI6IjEifQ.eyJzdWIiOiJtIn0.Aw")) end)

abbrev claims : Json
claims = obj (field (lit "sub") (str (lit "m")) end)

abbrev tcb : TcbResult
tcb = record {
  verified = true;
  tcb_status = str (lit "unknown");
  detail = lit "ITA token verified (advisories=";
  claims = claims;
}

verify_sound_example : Attested (env answer) quote ita tcb
unfolding verify attest item as_text verify_token split_token decode_part b64url get_or fetch_jwks
    check_token select_key json_equal is_text pubkey_from_jwk truthy rsa_numbers check_alg
    has_expired parse_tdx_quote slice hex hex_digit cross_check token_mrtd same lower loads
verify_sound_example = verify_sound (env answer) quote ita ita tcb refl
