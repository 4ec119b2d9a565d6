-- ===== src/Client/Binding/Laws.antt =====
-- What a binding to a TLS key proves.
use fidrouter.Base.{
  Text, Bytes, lit, false, Option, none, some, [], ok, refuse, refuse-eq-ok, >>=-eq-ok, same_iff,
  ◌≡◌, refl, ap, ◌∙◌, sym, subst, arith, ◌⊎◌, inl, inr, Bool-cases,
}
use fidrouter.Text.Base64.{b64_decode}
use fidrouter.Json.{Json, str, get, as_text, truthy}
use fidrouter.Json.Laws.{as_text-eq}
use fidrouter.Env.{Env}
use fidrouter.Exec.{ok-injective}
use fidrouter.Client.Binding.{differs, bind_key, tls_binding}

-- The attestation names no TLS key; or it names one, whose bytes are bound, and a server that is
-- reached over TLS has presented a certificate with that very key.
pub data TlsBound (env : Env) (base_url : Text) (qj : Json) (bound : Bytes) : Type 0 where
  plain :
      (tp : Json)
      → get qj (lit "tls_pub") ≡ ok tp
      → truthy tp ≡ false
      → bound ≡ []
      → TlsBound env base_url qj bound
  keyed :
      (s : Text) (peer : Option Bytes)
      → get qj (lit "tls_pub") ≡ ok (str s)
      → b64_decode s ≡ ok bound
      → env.peer_spki base_url ≡ ok peer
      → (peer ≡ none) ⊎ (peer ≡ some bound)
      → TlsBound env base_url qj bound

not-differs :
    (peer : Option Bytes) (spki : Bytes)
    → differs peer spki ≡ false
    → (peer ≡ none) ⊎ (peer ≡ some spki)
not-differs none spki h = inl refl
not-differs (some p) spki h = inr (ap some ((same_iff p spki).0 (ground arith)))

bind_key-eq-ok :
    (env : Env) (base_url s : Text) (bound : Bytes)
    → bind_key env base_url s ≡ ok bound
    → (b64_decode s ≡ ok bound)
      × (peer : Option Bytes) × (env.peer_spki base_url ≡ ok peer)
      × ((peer ≡ none) ⊎ (peer ≡ some bound))
unfolding bind_key
bind_key-eq-ok env base_url s bound h =
    let (spki, es, h0) = >>=-eq-ok (b64_decode s) _ h in
    let (peer, ep, h1) = >>=-eq-ok (env.peer_spki base_url) _ h0 in
    let (_, ed, h2) = >>=-eq-ok (refuse (differs peer spki) _) _ h1 in
    let e : spki ≡ bound = ok-injective spki bound h2 in
    (
      es ∙ ap ok e,
      peer,
      ep,
      subst (λ b. (peer ≡ none) ⊎ (peer ≡ some b)) e (not-differs peer spki (refuse-eq-ok _ _ ed)),
    )

-- A binding that is returned is sound: a server that terminates TLS with another key is refused.
pub tls_binding-TlsBound :
    (env : Env) (base_url : Text) (qj : Json) (bound : Bytes)
    → tls_binding env base_url qj ≡ ok bound
    → TlsBound env base_url qj bound
unfolding tls_binding
tls_binding-TlsBound env base_url qj bound h =
    let (tp, et, h0) = >>=-eq-ok (get qj (lit "tls_pub")) _ h in
    elim (Bool-cases (truthy tp)) [
      | inr f ↦ plain tp et f (sym (ok-injective [] bound (rw f at h0)))
      | inl t ↦
          let (s, es, h1) = >>=-eq-ok (as_text tp) _ (rw t at h0) in
          let (eb, peer, ep, agrees) = bind_key-eq-ok env base_url s bound h1 in
          keyed s peer (et ∙ ap ok (as_text-eq tp s es)) eb ep agrees
    ]
