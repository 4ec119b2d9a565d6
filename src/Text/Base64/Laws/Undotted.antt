-- ===== src/Text/Base64/Laws/Undotted.antt =====
-- The URL-safe form has no dot, so that dots can join the parts of a token.
use fidrouter.Base.{ℕ, Bytes, false, [], ◌∷◌, ◌==◌, ◌≡◌, subst, sym, List, All, arith}
use fidrouter.Text.Base64.{sextet_char, b64u}
use fidrouter.Text.Base64.Laws.{url_char, unpadded, b64u-eq-unpadded}

url_char-ne-dot : (d : ℕ) → (url_char d == b'.') ≡ false
unfolding sextet_char
url_char-ne-dot d = ground arith

abbrev pub IsUndotted : List ℕ → Type 0
IsUndotted s = All (λ c. (c == b'.') ≡ false) s

unpadded-IsUndotted : (bs : Bytes) → IsUndotted (unpadded bs)
unfolding unpadded
unpadded-IsUndotted [] = tt
unpadded-IsUndotted (a ∷ []) = (url_char-ne-dot _, (url_char-ne-dot _, tt))
unpadded-IsUndotted (a ∷ b ∷ []) = (url_char-ne-dot _, (url_char-ne-dot _, (url_char-ne-dot _, tt)))
unpadded-IsUndotted (a ∷ b ∷ c ∷ bs) = (
  url_char-ne-dot _,
  (url_char-ne-dot _, (url_char-ne-dot _, (url_char-ne-dot _, unpadded-IsUndotted bs))),
)

pub b64u-IsUndotted : (bs : Bytes) → IsUndotted (b64u bs)
b64u-IsUndotted bs = subst IsUndotted (sym (b64u-eq-unpadded bs)) (unpadded-IsUndotted bs)
