-- ===== src/Json/Laws.antt =====
-- What a passed test says of a value.
use fidrouter.Base.{
  Text, true, false, not, ◌&&◌, ok, same, same_iff, same_refl, [], ◌≡◌, ap, arith, ◌⊎◌,
}
use fidrouter.Json.{Json, null, bool, num, real, str, arr, obj, as_text, is_text}

pub is_text-eq : (j : Json) (t : Text) → is_text j t ≡ true → j ≡ str t
unfolding is_text
is_text-eq (str s) t h = ap str ((same_iff s t).0 h)
is_text-eq null t h = cc
is_text-eq (bool b) t h = cc
is_text-eq (num i) t h = cc
is_text-eq (real w) t h = cc
is_text-eq (arr xs) t h = cc
is_text-eq (obj fs) t h = cc

pub is_text-str : (t : Text) → is_text (str t) t ≡ true
unfolding is_text
is_text-str t = same_refl t

pub as_text-eq : (j : Json) (t : Text) → as_text j ≡ ok t → j ≡ str t
unfolding as_text
as_text-eq (str s) t h = cc
as_text-eq null t h = cc
as_text-eq (bool b) t h = cc
as_text-eq (num i) t h = cc
as_text-eq (real w) t h = cc
as_text-eq (arr xs) t h = cc
as_text-eq (obj fs) t h = cc

-- `pin and j != pin` is false: nothing is pinned, or the value is the pinned text.
pub pinned-eq :
    (pin : Text) (j : Json)
    → (not (same pin []) && not (is_text j pin)) ≡ false
    → (pin ≡ []) ⊎ (j ≡ str pin)
pinned-eq pin j h = ground (arith, same_iff pin [], is_text-eq j pin)

pub pinned_bytes-eq :
    (pin b : Text) → (not (same pin []) && not (same b pin)) ≡ false → (pin ≡ []) ⊎ (b ≡ pin)
pinned_bytes-eq pin b h = ground (arith, same_iff pin [], same_iff b pin)
