-- ===== src/Deploy/Settings.antt =====
-- `load_env`, `_clean` and what is read from them: the settings in the file `.env`.
pub mod Laws
use fidrouter.Base.{
  ℕ, Text, lit, Bool, true, false, ◌&&◌, ◌||◌, Option, none, some, List, [], ◌∷◌, ◌++◌, Result,
  or_raise, key_error, ◌>>=◌, ok, same, leb, ◌==◌, if◌then◌else◌,
}
use fidrouter.Text.Strip.{is_space, lstrip, strip, drop_last}
use fidrouter.Jwt.{split_onto}

abbrev pub Assignments : Type 0
Assignments = List (Text × Text)

-- `for line in f`: a line keeps the line feed at its end.
unfoldable pub file_lines : Text → List Text
file_lines [] = []
file_lines (c ∷ s) =
    let rest = file_lines s in
    if c == 10 then (c ∷ []) ∷ rest else elim rest [ [] ↦ (c ∷ []) ∷ [] | l ∷ ls ↦ (c ∷ l) ∷ ls ]

-- `[A-Za-z0-9_]`
unfoldable pub is_name_char : ℕ → Bool
is_name_char c =
    leb b'A' c && leb c b'Z' || leb b'a' c && leb c b'z' || leb b'0' c && leb c b'9' || c == b'_'

-- `([A-Za-z0-9_]+)` at the head of a text, with what follows.
unfoldable pub take_name : Text → Text × Text
unfolding is_name_char
take_name [] = ([], [])
take_name (c ∷ s) = let (n, r) = take_name s in if is_name_char c then (c ∷ n, r) else ([], c ∷ s)

-- The last blank that is no line feed: where nothing but blanks follows the sign, the greedy `\s*`
-- gives this one back to `(.+?)`.
unfoldable pub last_blank : Text → Option Text
last_blank [] = none
last_blank (c ∷ s) = elim (last_blank s) [
  | some v ↦ some v
  | none ↦ if c == 10 then none else some (c ∷ [])
]

-- `\s*(.+?)\s*$`
unfoldable pub match_value : Text → Option Text
unfolding strip last_blank same
match_value s = if same (strip s) [] then last_blank s else some (strip s)

-- `\s*=`, and the value after it
unfoldable pub match_sign : Text → Option Text
unfolding match_value
match_sign [] = none
match_sign (c ∷ s) = if c == b'=' then match_value s else none

unfoldable pub match_rest : Text × Text → Option (Text × Text)
unfolding match_sign same lstrip
match_rest (name, rest) = elim (match_sign (lstrip rest)) [
  | none ↦ none
  | some v ↦ if same name [] then none else some (name, v)
]

unfoldable pub match_line : Text → Option (Text × Text)
unfolding lstrip take_name match_rest
match_line line = match_rest (take_name (lstrip line))

-- `env[k] = v`, which keeps the place of a key that is there.
unfoldable pub assign : Text → Text → Assignments → Assignments
unfolding same
assign k v [] = (k, v) ∷ []
assign k v ((j, w) ∷ env) =
    let rest = assign k v env in if same j k then (j, v) ∷ env else (j, w) ∷ rest

abbrev pub assign_match : Option (Text × Text) → Assignments → Assignments
assign_match none env = env
assign_match (some (k, v)) env = assign k v env

unfoldable pub read_lines : Assignments → List Text → Assignments
unfolding match_line assign
read_lines env [] = env
read_lines env (l ∷ ls) = read_lines (assign_match (match_line l) env) ls

unfoldable pub read_env : Text → Assignments
unfolding file_lines read_lines
read_env s = read_lines [] (file_lines s)

-- `env.get(k)`
unfoldable pub setting : Text → Assignments → Option Text
unfolding same
setting k [] = none
setting k ((j, v) ∷ env) = let rest = setting k env in if same j k then some v else rest

-- `v.split("#")[0].strip()`
unfoldable pub clean : Text → Text
unfolding split_onto strip
clean v = strip (split_onto b'#' v).0

abbrev cleaned : Text → Assignments → Result Text
cleaned k env = do v ← or_raise (setting k env) key_error; ok (clean v)

unfoldable pub project : Assignments → Result Text
unfolding setting clean
project env = cleaned (lit "GCP_PROJECT_ID") env

unfoldable pub zone : Assignments → Result Text
unfolding setting clean
zone env = cleaned (lit "GCP_ZONE") env

-- `s.rsplit("-", 1)[0]`: the part before the last dash, or the whole.
unfoldable pub before_last_dash : Text → Option Text
before_last_dash [] = none
before_last_dash (c ∷ s) = elim (before_last_dash s) [
  | some t ↦ some (c ∷ t)
  | none ↦ if c == b'-' then some [] else none
]

unfoldable pub region_of : Text → Text
unfolding before_last_dash
region_of z = elim (before_last_dash z) [ none ↦ z | some r ↦ r ]

unfoldable pub region : Assignments → Result Text
unfolding zone region_of
region env = do z ← zone env; ok (region_of z)

-- `gcp.project(), gcp.zone(), gcp.region()`
pub record Place : Type 0 where
  pub p : Text
  pub z : Text
  pub r : Text

unfoldable pub place_of : Assignments → Result Place
unfolding project zone region
place_of env = do p ← project env; z ← zone env; r ← region env; ok (record { p = p; z = z; r = r })
