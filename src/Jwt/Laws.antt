-- ===== src/Jwt/Laws.antt =====
-- A token is cut where its two dots stand.
use fidrouter.Base.{Text, false, [], ◌∷◌, ◌++◌, ok, ◌==◌, ◌≡◌, refl, arith, All}
use fidrouter.Jwt.{split_onto, split, split_token}

abbrev pub IsUndotted : Text → Type 0
IsUndotted s = All (λ c. (c == b'.') ≡ false) s

pub split_onto-append :
    (s t : Text) → IsUndotted s → split_onto b'.' (s ++ b'.' ∷ t) ≡ (s, split b'.' t)
unfolding split
split_onto-append [] t h = refl
split_onto-append (c ∷ s) t (hc, hs) = rw (split_onto-append s t hs) (ground arith)

pub split_onto_undotted : (s : Text) → IsUndotted s → split_onto b'.' s ≡ (s, [])
unfolding split_onto
split_onto_undotted [] h = refl
split_onto_undotted (c ∷ s) (hc, hs) = rw (split_onto_undotted s hs) (ground arith)

-- Three parts without dots, joined by dots, are split as they were.
split_token-join :
    (h p s : Text)
    → IsUndotted h
    → IsUndotted p
    → IsUndotted s
    → split_token (h ++ b'.' ∷ (p ++ b'.' ∷ s))
      ≡ ok (record { header = h; payload = p; signature = s })
unfolding split_token
split_token-join h p s uh up us =
    rw (split_onto-append h (p ++ b'.' ∷ s) uh, split_onto-append p s up, split_onto_undotted s us)
