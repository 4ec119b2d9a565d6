-- ===== src/Deploy/Settings/Laws.antt =====
-- A file of assignments is read back, and the region of a zone.
use fidrouter.Base.{
  ℕ, Text, Bool, true, false, none, some, [], ◌∷◌, ◌++◌, append_assoc, append-nil, same, ◌==◌, ◌≡◌,
  ◌≢◌, refl, ap, sym, ◌∙◌, All, All-append, arith, Bool-cases, inl, inr,
}
use fidrouter.Text.Strip.{is_space, lstrip, strip, drop_last}
use fidrouter.Deploy.Settings.{
  Assignments, file_lines, is_name_char, take_name, match_value, match_sign, match_line, assign,
  assign_match, match_rest, read_lines, read_env, setting, before_last_dash, region_of,
}

-- A line as it is written.
abbrev pub assignment : Text × Text → Text
assignment (k, v) = k ++ b'=' ∷ (v ++ 10 ∷ [])

unfoldable pub written : Assignments → Text
written [] = []
written (a ∷ env) = assignment a ++ written env

abbrev pub IsName : Text → Type 0
IsName k = (k ≢ []) × All (λ c. is_name_char c ≡ true) k

-- A value on one line, with no blank at either end.
abbrev pub IsValue : Text → Type 0
IsValue v = (v ≢ []) × (strip v ≡ v) × All (λ c. (c == 10) ≡ false) v

file_lines-line :
    (l rest : Text)
    → All (λ c. (c == 10) ≡ false) l
    → file_lines (l ++ 10 ∷ rest) ≡ (l ++ 10 ∷ []) ∷ file_lines rest
unfolding file_lines
file_lines-line [] rest h = refl
file_lines-line (c ∷ l) rest (hc, hs) = rw (file_lines-line l rest hs, hc) refl

take_name-append :
    (k rest : Text)
    → All (λ c. is_name_char c ≡ true) k
    → take_name (k ++ b'=' ∷ rest) ≡ (k, b'=' ∷ rest)
unfolding take_name
take_name-append [] rest h = unfold is_name_char in refl
take_name-append (c ∷ k) rest (hc, hs) = rw (take_name-append k rest hs, hc) refl

name_char-not_space : (c : ℕ) → is_name_char c ≡ true → is_space c ≡ false
unfolding is_name_char is_space
name_char-not_space c h = ground (arith, h)

lstrip-name : (k rest : Text) → IsName k → lstrip (k ++ rest) ≡ k ++ rest
unfolding lstrip
lstrip-name [] rest (h, _) = absurd (h refl)
lstrip-name (c ∷ k) rest (_, (hc, hs)) = rw (name_char-not_space c hc) refl

lstrip_sign : (rest : Text) → lstrip (b'=' ∷ rest) ≡ b'=' ∷ rest
unfolding lstrip
lstrip_sign rest = unfold is_space in refl

same-nil : (s : Text) → s ≢ [] → same s [] ≡ false
unfolding same
same-nil [] h = absurd (h refl)
same-nil (c ∷ s) h = refl

drop_last-append :
    (p : ℕ → Bool) (s : Text) (c : ℕ) → p c ≡ true → drop_last p (s ++ c ∷ []) ≡ drop_last p s
unfolding drop_last
drop_last-append p [] c h = rw h refl
drop_last-append p (d ∷ s) c h = rw (drop_last-append p s c h) refl

lstrip-append : (s : Text) (c : ℕ) → lstrip s ≢ [] → lstrip (s ++ c ∷ []) ≡ lstrip s ++ c ∷ []
unfolding lstrip
lstrip-append [] c h = absurd (h refl)
lstrip-append (d ∷ s) c h = elim (Bool-cases (is_space d)) [
  | inl e ↦ rw e (lstrip-append s c (rw e at h))
  | inr e ↦ rw e refl
]

strip_line : (v : Text) → v ≢ [] → strip v ≡ v → strip (v ++ 10 ∷ []) ≡ v
unfolding strip
strip_line v h e =
    let kept : lstrip v ≢ [] =
      λ n. h (sym e ∙ ap (drop_last is_space) n ∙ unfold drop_last in refl) in
    ap (drop_last is_space) (lstrip-append v 10 kept)
    ∙ drop_last-append is_space (lstrip v) 10 (unfold is_space in refl)
    ∙ e

match_sign-value : (v : Text) → IsValue v → match_sign (b'=' ∷ (v ++ 10 ∷ [])) ≡ some v
unfolding match_sign match_value
match_sign-value v (nonempty, trimmed, _) =
    rw (strip_line v nonempty trimmed, same-nil v nonempty) refl

match_rest-eq :
    (k rest v : Text)
    → match_sign (lstrip rest) ≡ some v
    → same k [] ≡ false
    → match_rest (k, rest) ≡ some (k, v)
unfolding match_rest
match_rest-eq k rest v h e = rw (match_rest, h, e) refl

match_line-assignment :
    (k v : Text) → IsName k → IsValue v → match_line (assignment (k, v)) ≡ some (k, v)
unfolding match_line
match_line-assignment k v hk hv =
    ap (λ l. match_rest (take_name l)) (lstrip-name k (b'=' ∷ (v ++ 10 ∷ [])) hk)
    ∙ ap match_rest (take_name-append k (v ++ 10 ∷ []) hk.1)
    ∙ match_rest-eq k (b'=' ∷ (v ++ 10 ∷ [])) v
        (ap match_sign (lstrip_sign (v ++ 10 ∷ [])) ∙ match_sign-value v hv) (same-nil k hk.0)

-- No key stands among those before it.
abbrev pub Fresh : Assignments → Assignments → Type 0
Fresh before [] = Unit {0}
Fresh before ((k, v) ∷ env) = (setting k before ≡ none) × Fresh (before ++ (k, v) ∷ []) env

assign-new :
    (k v : Text) (env : Assignments) → setting k env ≡ none → assign k v env ≡ env ++ (k, v) ∷ []
unfolding assign setting
assign-new k v [] h = refl
assign-new k v ((j, w) ∷ env) h = elim (Bool-cases (same j k)) [
  | inl e ↦ absurd (cc (rw e at h))
  | inr e ↦ rw e (ap (λ l. (j, w) ∷ l) (assign-new k v env (rw e at h)))
]

abbrev pub AreValid : Assignments → Type 0
AreValid env = All (λ a. IsName a.0 × IsValue a.1) env

name_no_line_feed : (k : Text) → All (λ c. is_name_char c ≡ true) k → All (λ c. (c == 10) ≡ false) k
name_no_line_feed [] h = tt
name_no_line_feed (c ∷ k) (hc, hs) =
    (unfold is_name_char in ground (arith, hc), name_no_line_feed k hs)

assignment_line :
    (k v rest : Text)
    → IsName k
    → IsValue v
    → file_lines (assignment (k, v) ++ rest) ≡ assignment (k, v) ∷ file_lines rest
assignment_line k v rest hk hv =
    let l = k ++ b'=' ∷ v in
    let whole : assignment (k, v) ≡ l ++ 10 ∷ [] = sym (append_assoc k (b'=' ∷ v) (10 ∷ [])) in
    ap file_lines (ap (λ x. x ++ rest) whole ∙ append_assoc l (10 ∷ []) rest)
    ∙ file_lines-line l rest (All-append _ k (b'=' ∷ v) (name_no_line_feed k hk.1) (refl, hv.2))
    ∙ ap (λ x. x ∷ file_lines rest) (sym whole)

read_lines-written :
    (before env : Assignments)
    → AreValid env
    → Fresh before env
    → read_lines before (file_lines (written env)) ≡ before ++ env
unfolding read_lines written
read_lines-written before [] h fresh = unfold file_lines in sym (append-nil before)
read_lines-written before ((k, v) ∷ env) ((hk, hv), hs) (new, fresh) =
    ap (read_lines before) (assignment_line k v (written env) hk hv)
    ∙ ap (λ o. read_lines (assign_match o before) (file_lines (written env)))
        (match_line-assignment k v hk hv)
    ∙ ap (λ b. read_lines b (file_lines (written env))) (assign-new k v before new)
    ∙ read_lines-written (before ++ (k, v) ∷ []) env hs fresh
    ∙ append_assoc before ((k, v) ∷ []) env

-- A file of lines `NAME=value`, whose names are words that differ and whose values stand on one line
-- with no blank at either end, is read as those names with those values, in their order.
pub read_env-written :
    (env : Assignments) → AreValid env → Fresh [] env → read_env (written env) ≡ env
unfolding read_env
read_env-written env h fresh = read_lines-written [] env h fresh

before_last_dash-none : (s : Text) → All (λ c. (c == b'-') ≡ false) s → before_last_dash s ≡ none
unfolding before_last_dash
before_last_dash-none [] h = refl
before_last_dash-none (c ∷ s) (hc, hs) = rw (before_last_dash-none s hs, hc) refl

before_last_dash-append :
    (r s : Text) → All (λ c. (c == b'-') ≡ false) s → before_last_dash (r ++ b'-' ∷ s) ≡ some r
unfolding before_last_dash
before_last_dash-append [] s h = rw (before_last_dash-none s h) refl
before_last_dash-append (c ∷ r) s h = rw (before_last_dash-append r s h) refl

-- A zone is named by its region, a dash and a letter, whatever dashes the region has.
pub region_of-zone : (r s : Text) → All (λ c. (c == b'-') ≡ false) s → region_of (r ++ b'-' ∷ s) ≡ r
unfolding region_of
region_of-zone r s h = rw (region_of, before_last_dash-append r s h) refl
