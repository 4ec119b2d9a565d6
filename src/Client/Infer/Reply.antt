-- ===== src/Client/Infer/Reply.antt =====
-- The parts of `infer` that leave the client alone: sealing, and all that is done with the answer.
pub mod Laws
use fidrouter.Base.{
  ℕ, Text, Bytes, lit, not, ◌&&◌, [], ◌++◌, Result, ok, verification, refuse, guard, ◌>>=◌, ◌>>◌,
  same, ◌==◌, take, drop, if◌then◌else◌, pos,
}
use fidrouter.Text.Decimal.{show_int}
use fidrouter.Json.{Json, item, is_text}
use fidrouter.Json.Loads.{loads}
use fidrouter.Env.{Env}
use fidrouter.Quote.Token.{signature_error}
use fidrouter.Receipt.Canonical.{canonical_receipt}
use fidrouter.Client.State.{FidClient, Channel}
use fidrouter.Client.Binding.{bytes_item}

pub record InferResult : Type 0 where
  pub completion : Json
  pub cache_hit : Json
  pub account : Json
  pub affinity : Json
  pub model : Json
  pub prompt_tokens : Json
  pub completion_tokens : Json
  pub receipt : Json

abbrev pub info : Bytes
info = lit "fid-e2e-v1"

-- `sha256(shared + INFO)`
unfoldable pub channel_key : Env → Bytes → Result Bytes
channel_key env ephemeral_pub = do
  shared ← env.x25519_exchange env.x25519_private ephemeral_pub
  ok (env.sha256 (shared ++ info))

-- `_seal` and `_open`
unfoldable pub seal : Env → Bytes → Bytes → Bytes → Result Bytes
seal env key pt aad = do ct ← env.aes_encrypt key env.aes_nonce pt aad; ok (env.aes_nonce ++ ct)

unfoldable pub open_sealed : Env → Bytes → Bytes → Bytes → Result Bytes
open_sealed env key blob aad = env.aes_decrypt key (take 12 blob) (drop 12 blob) aad

abbrev pub receipt_key : FidClient → Channel → Bytes
receipt_key c q = if same c.pin_idpub [] then q.identity_pub else c.pin_idpub

unfoldable pub check_receipt : Env → FidClient → Channel → Text → Json → Bytes → Result (Unit {0})
check_receipt env c q model rec sig = do
  signature_error (verification (lit "receipt signature invalid"))
      (do body ← canonical_receipt env.floats rec; env.ed25519_verify (receipt_key c q) sig body)
  measurement ← if same c.pin_measurement [] then ok rec else item rec (lit "measurement")
  refuse (not (same c.pin_measurement []) && not (is_text measurement c.pin_measurement))
      (verification (lit "receipt measurement mismatch"))
  named ← item rec (lit "model")
  guard (is_text named model)
      (verification (lit "MODEL DOWNGRADE: asked " ++ (model ++ lit ", receipt says ")))

-- The result, from the plain answer, the receipt and the route.
unfoldable pub read_result : Json → Json → Json → Result InferResult
read_result out rec ur = do
  completion ← item ur (lit "completion")
  cache_hit ← item ur (lit "cache_hit")
  model ← item rec (lit "model")
  account ← (do route ← item out (lit "route"); item route (lit "account"))
  affinity ← (do route ← item out (lit "route"); item route (lit "affinity"))
  prompt_tokens ← item ur (lit "prompt_tokens")
  completion_tokens ← item ur (lit "completion_tokens")
  ok (record {
    completion = completion;
    cache_hit = cache_hit;
    account = account;
    affinity = affinity;
    model = model;
    prompt_tokens = prompt_tokens;
    completion_tokens = completion_tokens;
    receipt = rec;
  })

-- `infer`, from the answer on
unfoldable pub check_reply :
    Env → FidClient → Channel → Bytes → Bytes → Text → ℕ × Bytes → Result InferResult
unfolding check_receipt read_result
check_reply env c q key aad model (status, raw) = do
  guard (status == 200)
      (verification (lit "infer rejected (" ++ (show_int (pos status) ++ lit "): ")))
  out ← loads env.floats raw
  signed ← item out (lit "receipt")
  rec ← item signed (lit "receipt")
  sig ← (do again ← item out (lit "receipt"); bytes_item again (lit "sig"))
  check_receipt env c q model rec sig
  sealed_resp ← bytes_item out (lit "sealed_resp")
  resp_plain ← open_sealed env key sealed_resp aad
  ur ← loads env.floats resp_plain
  read_result out rec ur
