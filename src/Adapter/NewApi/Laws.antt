-- ===== src/Adapter/NewApi/Laws.antt =====
-- What the admin lookup can do to a verdict, and what a verdict of New API is worth.
use fidrouter.Base.{
  [], ◌∷◌, ◌++◌, ℕ, Text, lit, true, none, some, Result, ok, err, >>=-eq-ok, same, ◌==◌, ◌||◌,
  if-elim, if-cases, Bool-cases, Bool, false, Option, key_error, pos, ◌∙◌, ◌≡◌, refl, sym, ap,
  subst, ◌⊎◌, inl, inr, arith,
}
use fidrouter.Exec.{ok-injective}
use fidrouter.Text.Strip.{rstrip}
use fidrouter.Json.{
  Json, null, bool, num, real, str, arr, obj, Items, nil, cons, Floats, find, get, get_or, has_key,
  item, or_else, is_text, truthy,
}
use fidrouter.Adapter.Url.{has_scheme}
use fidrouter.Json.Convert.{to_float}
use fidrouter.Adapter.Verdict.{Verdict, refusal}
use fidrouter.Adapter.Gateway.{Response, answer, http_status, failed, World}
use fidrouter.Adapter.NewApi.{
  is_none, NewApiConfig, mentions, Found, least, group_of, quota_unit, own_quota, kept, matched,
  scan, listed, admin_items, admin_found, admin_lookup, accept_limit, newapi_answer,
  validate_newapi, bare_key,
}

-- The quota is what it was, or lower.
abbrev pub Lowered : Floats → ℕ → ℕ → Type 0
Lowered fl before now = (now ≡ before) ⊎ (fl.less now before ≡ true)

module _ (fl : Floats) (cfg : NewApiConfig) where
  least-Lowered : (a b : ℕ) → Lowered fl a (least fl a b)
  least-Lowered a b = elim (Bool-cases (fl.less b a)) [
    | inl lower ↦ rw lower (inr lower)
    | inr other ↦ rw other (inl refl)
  ]

  own_quota-Lowered :
      (it : Json) (before now : ℕ) → own_quota fl cfg it before ≡ ok now → Lowered fl before now
  unfolding own_quota
  own_quota-Lowered it before now h =
      let (unlimited, _, h0) = >>=-eq-ok (get it (lit "unlimited_quota")) _ h in
      let (quota, _, h1) = >>=-eq-ok (get it (lit "remain_quota")) _ h0 in
      elim (if-cases (truthy unlimited || is_none quota) (ok before) _ h1) [
        | inl (_, e) ↦ inl (sym (ok-injective before now e))
        | inr (_, e) ↦
            let (unit, _, e0) = >>=-eq-ok (quota_unit fl cfg) _ e in
            let (q, _, e1) = >>=-eq-ok (to_float fl quota) _ e0 in
            let (own, _, e2) = >>=-eq-ok (fl.over q unit) _ e1 in
            subst (Lowered fl before) (ok-injective _ now e2) (least-Lowered before own)
      ]

  abbrev Keeps : Found → Found → Type 0
  Keeps f g = Lowered fl f.remaining g.remaining

  kept-Keeps :
      {A : Type 0} (f g : Found) (r : Result A) (next : A → Found)
      → Keeps f g
      → ((a : A) → r ≡ ok a → Keeps f (next a))
      → Keeps f (kept g r next)
  kept-Keeps f g (ok a) next hf hn = hn a refl
  kept-Keeps f g (err e) next hf hn = hf

  matched-Keeps : (it : Json) (f : Found) → Keeps f (matched fl cfg it f)
  unfolding matched
  matched-Keeps it f = kept-Keeps f f (group_of it) _ (inl refl) λ g _.
      kept-Keeps f (record { group = g; remaining = f.remaining }) (own_quota fl cfg it f.remaining)
        _ (inl refl) λ r e. own_quota-Lowered it f.remaining r e

  scan-Keeps : (bare : Text) (its : Items) (f : Found) → Keeps f (scan fl cfg bare its f)
  unfolding scan
  scan-Keeps bare nil f = inl refl
  scan-Keeps bare (cons it its) f =
      kept-Keeps f f (get it (lit "key")) _ (inl refl)
        λ k _. if-elim (Keeps f) (is_text k bare) _ _ (matched-Keeps it f) (scan-Keeps bare its f)

  admin_found-Keeps : (key : Text) (r : Response) (f : Found) → Keeps f (admin_found fl cfg key r f)
  unfolding admin_found
  admin_found-Keeps key (answer body) f =
      kept-Keeps f f (admin_items body) _ (inl refl)
        λ items _. scan-Keeps (bare_key key) (listed items) f
  admin_found-Keeps key (http_status code) f = inl refl
  admin_found-Keeps key failed f = inl refl

admin_lookup-Lowered :
    (w : World) (cfg : NewApiConfig) (key : Text) (f : Found)
    → Lowered w.floats f.remaining (admin_lookup w cfg key f).remaining
unfolding admin_lookup
admin_lookup-Lowered w cfg key f =
    if-elim (λ (g : Found). Lowered w.floats f.remaining g.remaining) (same cfg.admin_token []) f _
      (inl refl)
      (if-elim (λ (g : Found). Lowered w.floats f.remaining g.remaining)
        (has_scheme (rstrip b'/' cfg.base ++ lit "/api/token/?p=0&size=500")) _ f
        (admin_found-Keeps w.floats cfg key _ f) (inl refl))

-- The billing endpoint answered to the key itself with a limit, and the verdict gives no more.
pub record Billed (w : World) (key : Text) (cfg : NewApiConfig) (v : Verdict) : Type 0 where
  pub body : Json
  pub answered :
      w.request (record {
        url = rstrip b'/' cfg.base ++ cfg.path;
        headers = (lit "Authorization", lit "Bearer " ++ key) ∷ [];
        body = none;
      })
      ≡ answer body
  pub limit : Json
  pub limit_eq : item body (lit "hard_limit_usd") ≡ ok limit
  pub hard : ℕ
  pub hard_eq : to_float w.floats (or_else limit (num (pos 0))) ≡ ok hard
  pub remaining : ℕ
  pub remaining_eq : v.remaining_usd ≡ some remaining
  pub lowered : Lowered w.floats hard remaining
  pub subject_eq : v.subject ≡ key

-- A value that is there and can be asked for stands in a dict.
item-mentioned :
    (body : Json) (k : Text) (v : Json)
    → mentions body k ≡ ok true
    → get body k ≡ ok v
    → item body k ≡ ok v
unfolding mentions has_key get_or item
item-mentioned (obj fs) k v there h =
    elim (find k fs)
        as (λ (o : Option Json).
          ◌≡◌ {A = Result Bool} (elim o [ none ↦ ok false | some u ↦ ok true ]) (ok true)
          → ◌≡◌ {A = Result Json} (elim o [ none ↦ ok null | some u ↦ ok u ]) (ok v)
          → ◌≡◌ {A = Result Json} (elim o [ none ↦ err key_error | some u ↦ ok u ]) (ok v)) [
            | none ↦ λ t g. absurd (cc t)
            | some u ↦ λ t g. g
          ]
      there h
item-mentioned null k v there h = absurd (cc h)
item-mentioned (bool b) k v there h = absurd (cc h)
item-mentioned (num i) k v there h = absurd (cc h)
item-mentioned (real w) k v there h = absurd (cc h)
item-mentioned (str s) k v there h = absurd (cc h)
item-mentioned (arr xs) k v there h = absurd (cc h)

module _ (w : World) (key : Text) (cfg : NewApiConfig) (v : Verdict) (says : v.ok_flag ≡ true) where
  not_refusal : (reason : Text) → refusal reason ≡ v → ⊥
  not_refusal reason e = ground (arith, ap (λ u. u.ok_flag) e, says)

  newapi_answer-Billed :
      (r : Response)
      → w.request (record {
        url = rstrip b'/' cfg.base ++ cfg.path;
        headers = (lit "Authorization", lit "Bearer " ++ key) ∷ [];
        body = none;
      })
        ≡ r
      → newapi_answer w key cfg r ≡ ok v
      → Billed w key cfg v
  unfolding newapi_answer accept_limit
  newapi_answer-Billed failed asked h = cc
  newapi_answer-Billed (http_status code) asked h =
      elim (if-cases (code == 401 || code == 403) _ _ h) [
        | inl (_, e) ↦ absurd (not_refusal _ (ok-injective _ v e))
        | inr (_, e) ↦ absurd (cc e)
      ]
  newapi_answer-Billed (answer body) asked h =
      let (limited, em, h0) = >>=-eq-ok (mentions body (lit "hard_limit_usd")) _ h in
      elim (if-cases limited _ _ h0) [
        | inr (_, e) ↦ absurd (not_refusal _ (ok-injective _ v e))
        | inl (there, e) ↦
            let (limit, el, e0) = >>=-eq-ok (get body (lit "hard_limit_usd")) _ e in
            let (hard, eh, e1) = >>=-eq-ok (to_float w.floats (or_else limit (num (pos 0)))) _ e0 in
            let found : Found =
              admin_lookup w cfg key (record { group = none; remaining = hard }) in
            let ev = ok-injective _ v e1 in
            record {
              body = body;
              answered = asked;
              limit = limit;
              limit_eq = item-mentioned body _ limit (em ∙ ap ok there) el;
              hard = hard;
              hard_eq = eh;
              remaining = found.remaining;
              remaining_eq = sym (ap (λ u. u.remaining_usd) ev);
              lowered = admin_lookup-Lowered w cfg key (record { group = none; remaining = hard });
              subject_eq = sym (ap (λ u. u.subject) ev);
            }
      ]

  -- New API's key is accepted only if the billing endpoint answered, to a request that bore this very
  -- key, with a dict in which there is a limit. The verdict then always gives a quota, and never one above that limit: the
  -- admin lookup, which is allowed to fail at any step, can lower it and cannot raise it.
  pub validate_newapi-Billed : validate_newapi w key cfg ≡ ok v → Billed w key cfg v
  unfolding validate_newapi
  validate_newapi-Billed h = elim (if-cases (has_scheme (rstrip b'/' cfg.base ++ cfg.path)) _ _ h) [
    | inl (_, e) ↦ newapi_answer-Billed _ refl e
    | inr (_, e) ↦ absurd (cc e)
  ]
