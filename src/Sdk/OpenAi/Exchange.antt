-- ===== src/Sdk/OpenAi/Exchange.antt =====
-- `_exchange` of the SDK against the handler of cp-adapter.
use fidrouter.Base.{
  Text, Bytes, lit, Option, ◌++◌, ok, pos, length, All, arith, ◌≡◌, refl, ◌∙◌, same,
}
use fidrouter.Text.Strip.{strip}
use fidrouter.Text.Utf8.{encode}
use fidrouter.Json.{get_or, as_text, truthy}
use fidrouter.Json.Dump.{dumps}
use fidrouter.Json.Loads.Texts.{IsScalar}
use fidrouter.Json.Loads.Exact.{Exact, ExactFields}
use fidrouter.Adapter.Token.{Host, Settings}
use fidrouter.Adapter.Server.{failure, body_length, with_body, do_post}
use fidrouter.Adapter.Server.Bodies.{do_post-dumps}
use fidrouter.Sdk.OpenAi.{exchange_body}

exchange_body-Exact :
    (api_token pool : Text)
    → All IsScalar api_token
    → All IsScalar pool
    → Exact (exchange_body api_token pool)
unfolding Exact ExactFields
exchange_body-Exact api_token pool t p = (ground arith, t, refl, (ground arith, p, refl, tt))

with_body-exchange_body :
    (h : Host) (s : Settings) (api_token pool : Text)
    → with_body h s (ok (exchange_body api_token pool))
      ≡ ok (failure 400 (lit "provide the user key as {\"key\":\"...\"}"))
unfolding with_body as_text same strip get_or truthy
with_body-exchange_body h s api_token pool = refl

-- The handler of cp-adapter answers the body that the SDK's `_exchange` sends with status 400, whatever
-- the key and the pool are, and whatever its settings and its validator: the SDK names the key
-- `api_token`, and the handler looks for `key`. The two are any Unicode texts, and the header gives
-- the length of the body.
pub do_post-exchange_body :
    (h : Host) (s : Settings) (api_token pool : Text) (b rest : Bytes) (header : Option Text)
    → All IsScalar api_token
    → All IsScalar pool
    → encode (dumps h.floats (exchange_body api_token pool)) ≡ ok b
    → body_length header ≡ ok (pos (length b))
    → do_post h s (record { path = lit "/exchange"; content_length = header; payload = b ++ rest })
      ≡ ok (failure 400 (lit "provide the user key as {\"key\":\"...\"}"))
do_post-exchange_body h s api_token pool b rest header t p e l =
    do_post-dumps h s (exchange_body api_token pool) b rest header
      (exchange_body-Exact api_token pool t p) e l
    ∙ with_body-exchange_body h s api_token pool
