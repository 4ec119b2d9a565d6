-- ===== src/Adapter/Url.antt =====
-- Whether `urllib.request.Request(url)` can be made: it raises `ValueError` for a URL with no scheme.
use fidrouter.Base.{ℕ, Text, lit, Bool, true, false, not, ◌&&◌, [], ◌∷◌, drop, ◌==◌, if◌then◌else◌}
use fidrouter.Text.Strip.{strip, starts_with, is_infix}

-- `s[-1:] == c`, and `s[:-1]`
unfoldable ends_in : ℕ → Text → Bool
ends_in c [] = false
ends_in c (d ∷ []) = d == c
ends_in c (d ∷ e ∷ s) = ends_in c (e ∷ s)

unfoldable but_last : Text → Text
but_last [] = []
but_last (c ∷ []) = []
but_last (c ∷ d ∷ s) = c ∷ but_last (d ∷ s)

unfoldable unbracketed : Text → Text
unfolding strip ends_in but_last starts_with
unbracketed s = if starts_with s (lit "<") && ends_in b'>' s then strip (drop 1 (but_last s)) else s

unfoldable without_mark : Text → Text
unfolding strip starts_with
without_mark s = if starts_with s (lit "URL:") then strip (drop 4 s) else s

-- What stands before the last `#`, if there is one.
unfoldable before_tag : Text → Text
unfolding is_infix
before_tag [] = []
before_tag (c ∷ s) =
    let rest = before_tag s in
    if is_infix (lit "#") s then c ∷ rest else if c == b'#' then [] else c ∷ s

-- `([^/:]+):`, at the start and after the first character
unfoldable typed_on : Text → Bool
typed_on [] = false
typed_on (c ∷ s) =
    let rest = typed_on s in if c == b':' then true else if c == b'/' then false else rest

unfoldable typed : Text → Bool
unfolding typed_on
typed [] = false
typed (c ∷ s) = not (c == b':') && not (c == b'/') && typed_on s

unfoldable pub has_scheme : Text → Bool
unfolding unbracketed without_mark before_tag typed
has_scheme url = typed (before_tag (without_mark (unbracketed (strip url))))
