-- ===== src/Adapter/Config/Laws.antt =====
-- What a configuration that loads is worth.
use fidrouter.Base.{
  ℕ, Text, lit, not, true, Result, ok, err, guard, guard-eq-ok, >>=-eq-ok, drop, same, same_iff,
  if-cases, ◌≡◌, ◌≢◌, refl, ap, subst, inl, inr, [], arith, value_error,
}
use fidrouter.Exec.{ok-injective}
use fidrouter.Text.Strip.{starts_with}
use fidrouter.Json.{Floats}
use fidrouter.Adapter.Gateway.{HttpConfig, ExecConfig}
use fidrouter.Adapter.NewApi.{NewApiConfig}
use fidrouter.Adapter.Config.{
  Environ, env_or, Validator, newapi, http, exec, newapi_config, http_config, exec_config,
  validator_kind, from_env, cap_of, quota_text, quota_policy,
}

-- The operator's choice of what an unknown quota is worth: nothing, or a number that was written down.
pub data Chosen (fl : Floats) (e : Environ) : Text × ℕ → Type 0 where
  refuses : Chosen fl e (lit "refuse", 0)
  caps :
      (w : ℕ)
      → starts_with (quota_text e) (lit "cap:") ≡ true
      → fl.of_text (drop 4 (quota_text e)) ≡ ok w
      → Chosen fl e (lit "cap", w)

cap_of-eq-ok :
    (r : Result ℕ) (p : Text × ℕ) → cap_of r ≡ ok p → (w : ℕ) × (r ≡ ok w) × ((lit "cap", w) ≡ p)
cap_of-eq-ok (ok w) p h = (w, refl, ok-injective _ p h)
cap_of-eq-ok (err value_error) p h = cc
cap_of-eq-ok (err _) p h = cc

-- A policy that loads is to refuse an unknown quota, or to cap it at the number that the operator
-- wrote after `cap:`; there is no third, unlimited one.
pub quota_policy-Chosen :
    (fl : Floats) (e : Environ) (p : Text × ℕ) → quota_policy fl e ≡ ok p → Chosen fl e p
unfolding quota_policy
quota_policy-Chosen fl e p h = elim (if-cases (same (quota_text e) (lit "refuse")) _ _ h) [
  | inl (_, x) ↦ subst (Chosen fl e) (ok-injective _ p x) refuses
  | inr (_, x) ↦ elim (if-cases (starts_with (quota_text e) (lit "cap:")) _ _ x) [
    | inl (capped, y) ↦
        let (w, ew, ep) = cap_of-eq-ok (fl.of_text (drop 4 (quota_text e))) p y in
        subst (Chosen fl e) ep (caps w capped ew)
    | inr (_, y) ↦ absurd (cc y)
  ]
]

-- A validator under its own name, and with the setting that it cannot do without.
pub data Usable (e : Environ) : Text × Validator → Type 0 where
  by_newapi :
      (cfg : NewApiConfig)
      → validator_kind e ≡ lit "newapi"
      → cfg.base ≢ []
      → Usable e (validator_kind e, newapi cfg)
  by_http :
      (cfg : HttpConfig)
      → validator_kind e ≡ lit "http"
      → cfg.url ≢ []
      → Usable e (validator_kind e, http cfg)
  by_exec :
      (cfg : ExecConfig)
      → validator_kind e ≡ lit "exec"
      → cfg.cmd ≢ []
      → Usable e (validator_kind e, exec cfg)

filled : (t : Text) → not (same t []) ≡ true → t ≢ []
filled t h e = ground (arith, (same_iff t []).1 e)

newapi_config-filled : (e : Environ) (cfg : NewApiConfig) → newapi_config e ≡ ok cfg → cfg.base ≢ []
unfolding newapi_config
newapi_config-filled e cfg h =
    let (_, g, x) = >>=-eq-ok (guard (not (same (env_or e (lit "NEWAPI_BASE") []) [])) _) _ h in
    subst (λ t. t ≢ []) (ap (λ c. c.base) (ok-injective _ cfg x)) (filled _ (guard-eq-ok _ _ g))

http_config-filled : (e : Environ) (cfg : HttpConfig) → http_config e ≡ ok cfg → cfg.url ≢ []
unfolding http_config
http_config-filled e cfg h =
    let (_, g, x) = >>=-eq-ok (guard (not (same (env_or e (lit "VALIDATOR_URL") []) [])) _) _ h in
    subst (λ t. t ≢ []) (ap (λ c. c.url) (ok-injective _ cfg x)) (filled _ (guard-eq-ok _ _ g))

exec_config-filled : (e : Environ) (cfg : ExecConfig) → exec_config e ≡ ok cfg → cfg.cmd ≢ []
unfolding exec_config
exec_config-filled e cfg h =
    let (_, g, x) = >>=-eq-ok (guard (not (same (env_or e (lit "VALIDATOR_CMD") []) [])) _) _ h in
    subst (λ t. t ≢ []) (ap (λ c. c.cmd) (ok-injective _ cfg x)) (filled _ (guard-eq-ok _ _ g))

-- Of a configuration that loads, the validator is the one of the three that is named, and its address
-- or command is not empty.
pub from_env-Usable : (e : Environ) (p : Text × Validator) → from_env e ≡ ok p → Usable e p
unfolding from_env
from_env-Usable e p h = elim (if-cases (same (validator_kind e) (lit "newapi")) _ _ h) [
  | inl (k, x) ↦
      let (cfg, ec, y) = >>=-eq-ok (newapi_config e) _ x in
      subst (Usable e) (ok-injective _ p y)
        (by_newapi cfg ((same_iff _ _).0 k) (newapi_config-filled e cfg ec))
  | inr (_, x) ↦ elim (if-cases (same (validator_kind e) (lit "http")) _ _ x) [
    | inl (k, y) ↦
        let (cfg, ec, z) = >>=-eq-ok (http_config e) _ y in
        subst (Usable e) (ok-injective _ p z)
          (by_http cfg ((same_iff _ _).0 k) (http_config-filled e cfg ec))
    | inr (_, y) ↦ elim (if-cases (same (validator_kind e) (lit "exec")) _ _ y) [
      | inl (k, z) ↦
          let (cfg, ec, u) = >>=-eq-ok (exec_config e) _ z in
          subst (Usable e) (ok-injective _ p u)
            (by_exec cfg ((same_iff _ _).0 k) (exec_config-filled e cfg ec))
      | inr (_, z) ↦ absurd (cc z)
    ]
  ]
]
