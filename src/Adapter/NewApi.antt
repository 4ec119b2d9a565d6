-- ===== src/Adapter/NewApi.antt =====
-- `_newapi`: New API's billing endpoint, and its admin API for the key's own group and quota.
pub mod Laws
use fidrouter.Base.{
  ℕ, Text, Bytes, lit, Bool, true, false, not, ◌&&◌, ◌||◌, Option, none, some, List, [], ◌∷◌, ◌++◌,
  Result, ok, err, Error, unavailable, type_error, value_error, ◌>>=◌, same, ◌==◌, drop,
  if◌then◌else◌, ℤ, pos,
}
use fidrouter.Text.Strip.{is_infix, strip, rstrip, starts_with}
use fidrouter.Text.Decimal.{show_int}
use fidrouter.Json.{
  Json, null, bool, num, real, str, arr, obj, Items, nil, cons, Fields, end, field, Floats, get,
  item, as_text, is_text, is_dict, truthy, or_else, has_key, contains_text,
}
use fidrouter.Json.Convert.{to_float}
use fidrouter.Env.{Request}
use fidrouter.Adapter.Url.{has_scheme}
use fidrouter.Adapter.Verdict.{Verdict, refusal}
use fidrouter.Adapter.Gateway.{Response, answer, http_status, failed, World}

pub record NewApiConfig : Type 0 where
  pub base : Text
  pub path : Text
  pub admin_token : Text
  pub admin_user_id : Text
  pub quota_per_usd : Text

-- `k in data`, of a dict, a list or a text
unfoldable pub mentions : Json → Text → Result Bool
unfolding is_infix
mentions (obj fs) k = has_key (obj fs) k
mentions (arr xs) k = ok (contains_text xs k)
mentions (str s) k = ok (is_infix k s)
mentions j k = err type_error

-- `key[3:] if key.startswith("sk-") else key`
unfoldable pub bare_key : Text → Text
bare_key key = if starts_with key (lit "sk-") then drop 3 key else key

-- What the admin lookup has found so far: the group and the remaining quota.
abbrev pub Found : Type 0
Found = record { group : Option Text; remaining : ℕ }

-- `min(a, b)`
abbrev pub least : Floats → ℕ → ℕ → ℕ
least fl a b = if fl.less b a then b else a

-- `(it.get("group") or "").strip() or None`
unfoldable pub group_of : Json → Result (Option Text)
group_of it = do
  g ← get it (lit "group")
  s ← as_text (or_else g (str []))
  ok (if same (strip s) [] then none else some (strip s))

-- `float(cfg.get("quota_per_usd", 500000)) or 500000.0`
unfoldable pub quota_unit : Floats → NewApiConfig → Result ℕ
quota_unit fl cfg = do
  w ← fl.of_text cfg.quota_per_usd
  if w == 0 || w == 0x8000000000000000 then fl.of_int (pos 500000) else ok w

abbrev pub is_none : Json → Bool
is_none null = true
is_none j = false

unfoldable pub own_quota : Floats → NewApiConfig → Json → ℕ → Result ℕ
own_quota fl cfg it remaining = do
  unlimited ← get it (lit "unlimited_quota")
  quota ← get it (lit "remain_quota")
  if truthy unlimited || is_none quota then ok remaining else (do
    per_usd ← quota_unit fl cfg
    q ← to_float fl quota
    own ← fl.over q per_usd
    ok (least fl remaining own))

-- A failure ends the lookup with what was found before it.
abbrev pub kept {ℓ} : {A : Type ℓ} → Found → Result A → (A → Found) → Found
kept f (err e) next = f
kept f (ok a) next = next a

unfoldable pub matched : Floats → NewApiConfig → Json → Found → Found
matched fl cfg it f = kept f (group_of it) λ g.
    let f' : Found = record { group = g; remaining = f.remaining } in
    kept f' (own_quota fl cfg it f.remaining) λ r. record { group = g; remaining = r }

-- `for it in items`, up to the key's own entry
unfoldable pub scan : Floats → NewApiConfig → Text → Items → Found → Found
scan fl cfg bare nil f = f
scan fl cfg bare (cons it its) f =
    let rest = scan fl cfg bare its f in
    kept f (get it (lit "key")) λ k. if is_text k bare then matched fl cfg it f else rest

-- `items or []`, as something to iterate over; a text or a dict fails at its first item.
abbrev pub listed : Json → Items
listed (arr xs) = xs
listed j = nil

-- `.get("data")`, or of a dict its items or its records
unfoldable pub admin_items : Json → Result Json
admin_items body = do
  data_part ← get body (lit "data")
  if is_dict data_part
      then (do
        items ← get data_part (lit "items")
        records ← get data_part (lit "records")
        ok (or_else items (or_else records (arr nil))))
      else ok data_part

unfoldable pub admin_found : Floats → NewApiConfig → Text → Response → Found → Found
unfolding scan matched
admin_found fl cfg key (answer body) f =
    kept f (admin_items body) λ items. scan fl cfg (bare_key key) (listed items) f
admin_found fl cfg key (http_status code) f = f
admin_found fl cfg key failed f = f

-- The admin lookup is made only with a token for it; a request that cannot be made ends it.
unfoldable pub admin_lookup : World → NewApiConfig → Text → Found → Found
unfolding admin_found has_scheme
admin_lookup w cfg key f =
    if same cfg.admin_token []
    then f
    else if has_scheme (rstrip b'/' cfg.base ++ lit "/api/token/?p=0&size=500")
    then admin_found w.floats cfg key
        (w.request (record {
          url = rstrip b'/' cfg.base ++ lit "/api/token/?p=0&size=500";
          headers =
              (lit "Authorization", lit "Bearer " ++ cfg.admin_token)
              ∷ (lit "New-Api-User", cfg.admin_user_id)
              ∷ [];
          body = none;
        }))
        f
    else f

-- From the data of the billing endpoint on.
unfoldable pub accept_limit : World → Text → NewApiConfig → Json → Result Verdict
unfolding admin_lookup
accept_limit w key cfg body = do
  limit ← get body (lit "hard_limit_usd")
  hard ← to_float w.floats (or_else limit (num (pos 0)))
  let found = admin_lookup w cfg key (record { group = none; remaining = hard })
  ok (record {
    ok_flag = true;
    subject = key;
    remaining_usd = some found.remaining;
    group = found.group;
    models = [];
    expires_at = none;
    reason = [];
  })

unfoldable pub newapi_answer : World → Text → NewApiConfig → Response → Result Verdict
unfolding accept_limit
newapi_answer w key cfg (answer body) = do
  limited ← mentions body (lit "hard_limit_usd")
  if limited then accept_limit w key cfg body else ok (refusal (lit "gateway rejected the key"))
newapi_answer w key cfg (http_status code) =
    if code == 401 || code == 403
    then ok (refusal (lit "gateway rejected the key (" ++ (show_int (pos code) ++ lit ")")))
    else err (unavailable (lit "gateway HTTP " ++ show_int (pos code)))
newapi_answer w key cfg failed = err (unavailable (lit "gateway unreachable: "))

-- `_newapi`: the first request is made before the block that is tried.
unfoldable pub validate_newapi : World → Text → NewApiConfig → Result Verdict
unfolding newapi_answer has_scheme
validate_newapi w key cfg =
    if has_scheme (rstrip b'/' cfg.base ++ cfg.path)
    then newapi_answer w key cfg (
        w.request (record {
          url = rstrip b'/' cfg.base ++ cfg.path;
          headers = (lit "Authorization", lit "Bearer " ++ key) ∷ [];
          body = none;
        }))
    else err value_error
