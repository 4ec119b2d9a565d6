-- ===== src/Tests/Sessions.antt =====
-- A client that lives through several calls.
use fidrouter.Base.{lit, false, none, List, [], ◌∷◌, refl, same}
use fidrouter.Text.Strip.{rstrip}
use fidrouter.Text.Hex.{from_hex}
use fidrouter.Json.{str, obj, end, field}
use fidrouter.Client.State.{FidClient, Config, new_client}
use fidrouter.Client.Attest.Keeps.{posts, SameSettings}
use fidrouter.Client.Session.{Call, attesting, inferring, chatting, after_calls, Run}
use fidrouter.Client.Session.Laws.{after_calls_refines}
use fidrouter.Tests.Toy.{env, mock, confidential, client}

abbrev config : Config
config = record {
  base_url = lit "u/";
  token = lit "k";
  pin_measurement = lit "m";
  pin_idpub_hex = lit "02";
  pccs_url = [];
  dcap_backend = none;
  dcap_allow_unverified = false;
  cs_audience = lit "aud";
}

abbrev made : FidClient
made = record client { dcap_backend = none; cs_jwks = none }

abbrev calls : List Call
calls =
    inferring (env mock) (lit "m1") (lit "p") (str (lit "q"))
    ∷ attesting (env confidential)
    ∷ chatting (env mock) (lit "m1") (
        obj (field (lit "role") (str (lit "user")) (field (lit "content") (str (lit "q")) end))
        ∷ [])
    ∷ []

after_calls_refines_example :
    SameSettings made (after_calls calls made)
    × Run made calls [] (posts (after_calls calls made).log)
unfolding new_client rstrip from_hex same
after_calls_refines_example = after_calls_refines config made calls refl
