-- ===== src/Client/State.antt =====
-- The object, its constructor, and its requests, which are recorded in the order in which they go out.
use fidrouter.Base.{
  ℕ, Text, Bytes, Bool, Option, none, List, [], ◌∷◌, ◌++◌, Result, ok, ◌>>=◌, if◌then◌else◌, same,
}
use fidrouter.Text.Strip.{rstrip}
use fidrouter.Text.Hex.{from_hex}
use fidrouter.Json.{Json}
use fidrouter.Env.{Env}
use fidrouter.Exec.{Exec}
use fidrouter.Quote.Policy.{Backend}

pub data Event : Type 0 where
  got : Text → Event
  posted : Text → Json → Event

pub record FidClient : Type 0 where
  pub base_url : Text
  pub token : Text
  pub pin_measurement : Text
  pub pin_idpub : Bytes
  pub pccs_url : Text
  pub dcap_backend : Option Backend
  pub dcap_allow_unverified : Bool
  pub cs_audience : Text
  pub cs_jwks : Option Json
  pub log : List Event

-- The arguments of the constructor.
pub record Config : Type 0 where
  pub base_url : Text
  pub token : Text
  pub pin_measurement : Text
  pub pin_idpub_hex : Text
  pub pccs_url : Text
  pub dcap_backend : Option Backend
  pub dcap_allow_unverified : Bool
  pub cs_audience : Text

abbrev pub hex_or_empty : Text → Result Bytes
hex_or_empty s = if same s [] then ok [] else from_hex s

-- `__init__`
unfoldable pub new_client : Config → Result FidClient
unfolding rstrip
new_client c = do
  pin ← hex_or_empty c.pin_idpub_hex
  ok (record {
    base_url = rstrip b'/' c.base_url;
    token = c.token;
    pin_measurement = c.pin_measurement;
    pin_idpub = pin;
    pccs_url = c.pccs_url;
    dcap_backend = c.dcap_backend;
    dcap_allow_unverified = c.dcap_allow_unverified;
    cs_audience = c.cs_audience;
    cs_jwks = none;
    log = [];
  })

-- `_http_get` and `_http_post`
unfoldable pub http_get : Env → Text → Exec FidClient Json
http_get env url c = (
  env.fetch (record { url = url; headers = []; body = none }),
  record c { log = c.log ++ (got url ∷ []) },
)

unfoldable pub http_post : Env → Text → Json → Exec FidClient (ℕ × Bytes)
http_post env url body c = (env.post url body, record c { log = c.log ++ (posted url body ∷ []) })

-- What the three ways of attesting return: the channel's key and the key that signs receipts.
pub record Channel : Type 0 where
  pub session : Json
  pub ephemeral_pub : Bytes
  pub identity_pub : Bytes
