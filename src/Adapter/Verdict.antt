-- ===== src/Adapter/Verdict.antt =====
-- `Verdict`: what a validator says of a key.
use fidrouter.Base.{
  ℕ, Text, lit, Bool, true, false, not, ◌&&◌, Option, none, some, List, [], ◌∷◌, Result, ok, err,
  unavailable, type_error, ◌>>=◌, ◌>>◌, guard, take, same, ℤ, if◌then◌else◌,
}
use fidrouter.Json.{
  Json, null, bool, num, real, str, arr, obj, Items, nil, cons, Fields, end, field, Floats, get,
  get_or, truthy, or_else, is_dict,
}
use fidrouter.Json.Numbers.{to_int}
use fidrouter.Json.Convert.{to_text, to_float}
use fidrouter.Text.Decimal.{is_digit}

pub record Verdict : Type 0 where
  pub ok_flag : Bool
  pub subject : Text
  pub remaining_usd : Option ℕ
  pub group : Option Text
  pub models : List Text
  pub expires_at : Option ℤ
  pub reason : Text

-- `cls(ok=False, reason=reason)`
abbrev pub refusal : Text → Verdict
refusal reason = record {
  ok_flag = false;
  subject = [];
  remaining_usd = none;
  group = none;
  models = [];
  expires_at = none;
  reason = reason;
}

-- `float(rem) if isinstance(rem, (int, float)) else None`; a `bool` is an `int`.
unfoldable pub read_remaining : Floats → Json → Result (Option ℕ)
unfolding to_float
read_remaining fl (bool b) = do w ← to_float fl (bool b); ok (some w)
read_remaining fl (num i) = do w ← to_float fl (num i); ok (some w)
read_remaining fl (real w) = ok (some w)
read_remaining fl j = ok none

-- `str(d["group"]) if d.get("group") not in (None, "") else None`
unfoldable pub read_group : Floats → Json → Option Text
unfolding to_text
read_group fl null = none
read_group fl (str []) = none
read_group fl j = some (to_text fl j)

-- `[str(m) for m in models if str(m)]`
unfoldable pub add_model : Text → List Text → List Text
add_model [] ms = ms
add_model (c ∷ s) ms = (c ∷ s) ∷ ms

unfoldable pub item_models : Floats → Items → List Text
unfolding add_model
item_models fl nil = []
item_models fl (cons x xs) = add_model (to_text fl x) (item_models fl xs)

unfoldable pub key_models : Fields → List Text
unfolding add_model
key_models end = []
key_models (field k v fs) = add_model k (key_models fs)

unfoldable pub char_models : Text → List Text
char_models [] = []
char_models (c ∷ s) = (c ∷ []) ∷ char_models s

unfoldable pub read_models : Floats → Json → Result (List Text)
unfolding item_models key_models char_models
read_models fl (arr xs) = ok (item_models fl xs)
read_models fl (obj fs) = ok (key_models fs)
read_models fl (str s) = ok (char_models s)
read_models fl j = err type_error

-- `s.isdigit()`
unfoldable pub all_digits : Text → Bool
unfolding is_digit
all_digits [] = true
all_digits (c ∷ s) = is_digit c && all_digits s

unfoldable pub is_digits : Text → Bool
unfolding all_digits
is_digits s = not (same s []) && all_digits s

unfoldable pub read_expiry : Floats → Json → Result (Option ℤ)
unfolding is_digits
read_expiry fl j =
    if is_digits (to_text fl (or_else j (str [])))
    then (do i ← to_int fl j; ok (some i))
    else ok none

-- A verdict that says yes.
unfoldable pub read_accepted : Floats → Json → Result Verdict
unfolding read_remaining read_group read_models read_expiry
read_accepted fl d = do
  rem ← get d (lit "remaining_usd")
  models ← get d (lit "models")
  subject ← get d (lit "subject")
  remaining_usd ← read_remaining fl rem
  group ← get d (lit "group")
  model_list ← read_models fl (or_else models (arr nil))
  expiry ← get d (lit "expires_at")
  expires_at ← read_expiry fl expiry
  ok (record {
    ok_flag = true;
    subject = to_text fl (or_else subject (str []));
    remaining_usd = remaining_usd;
    group = read_group fl group;
    models = model_list;
    expires_at = expires_at;
    reason = [];
  })

unfoldable pub from_json : Floats → Json → Result Verdict
unfolding read_accepted
from_json fl d = do
  guard (is_dict d) (unavailable (lit "validator returned a non-object"))
  flag ← get d (lit "ok")
  reason ← get_or d (lit "reason") (str [])
  if truthy flag then read_accepted fl d else ok (refusal (take 200 (to_text fl reason)))
