-- ===== src/Text/Strip.antt =====
-- `str.strip()`, `str.rstrip(c)` and `str.lower()`; the last over ASCII letters.
use fidrouter.Base.{true, false, ℕ, ◌+◌, Text, Bool, ◌&&◌, ◌||◌, [], ◌∷◌, leb, ◌==◌, if◌then◌else◌}
use mathlib.Core.List.{map}

-- `str.isspace()` of one character
unfoldable pub is_space : ℕ → Bool
is_space c =
    leb 9 c && leb c 13
    || leb 28 c && leb c 32
    || c == 0x85
    || c == 0xa0
    || c == 0x1680
    || leb 0x2000 c && leb c 0x200a
    || leb 0x2028 c && leb c 0x2029
    || c == 0x202f
    || c == 0x205f
    || c == 0x3000

unfoldable pub lstrip : Text → Text
unfolding is_space
lstrip [] = []
lstrip (c ∷ s) = let rest = lstrip s in if is_space c then rest else c ∷ s

-- The text without its last characters that pass a test: a character is dropped if all after it are.
unfoldable pub drop_last : (ℕ → Bool) → Text → Text
drop_last p [] = []
drop_last p (c ∷ s) = elim (drop_last p s) [ [] ↦ if p c then [] else c ∷ [] | d ∷ t ↦ c ∷ d ∷ t ]

unfoldable pub strip : Text → Text
unfolding lstrip drop_last
strip s = drop_last is_space (lstrip s)

-- `s.rstrip(c)`
unfoldable pub rstrip : ℕ → Text → Text
unfolding drop_last
rstrip c s = drop_last (λ d. d == c) s

-- `s.startswith(t)`
unfoldable pub starts_with : Text → Text → Bool
starts_with s [] = true
starts_with [] (d ∷ t) = false
starts_with (c ∷ s) (d ∷ t) = c == d && starts_with s t

-- `t in s`, for texts
unfoldable pub is_infix : Text → Text → Bool
unfolding starts_with
is_infix t [] = starts_with [] t
is_infix t (c ∷ s) = starts_with (c ∷ s) t || is_infix t s

unfoldable pub lower : Text → Text
lower s = map (λ c. if leb b'A' c && leb c b'Z' then c + 32 else c) s
