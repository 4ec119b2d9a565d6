-- ===== src/Sdk/OpenAi/Laws.antt =====
-- The measurement that the drop-in client pins comes from the registry's entry for its own address.
use fidrouter.Base.{
  Text, lit, Bool, true, false, none, some, Option, [], ◌++◌, Result, ok, err, >>=-eq-ok, if-cases,
  ◌≡◌, refl, ap, ◌∙◌, ◌⊎◌, inl, inr,
}
use fidrouter.Text.Strip.{rstrip}
use fidrouter.Json.{Json, Items, nil, cons, truthy}
use fidrouter.Env.{Env}
use fidrouter.Quote.TrustAuthority.Laws.{or_raise-eq-ok}
use fidrouter.Sdk.OpenAi.{
  row_matches, row_measurement, measured_or, matched_or, find_measurement, rows_of,
  resolve_expected,
}

abbrev pub Among : Json → Items → Type 0
Among e nil = ⊥
Among e (cons x xs) = (e ≡ x) ⊎ Among e xs

-- A row of the registry's answer for this very address, and the measurement that it publishes.
pub record Row (want : Text) (rows : Items) (m : Json) : Type 0 where
  pub row : Json
  pub listed : Among row rows
  pub matches : row_matches want row ≡ ok true
  pub measured : row_measurement row ≡ ok m
  pub filled : truthy m ≡ true

row-cases :
    (r : Result Bool) (q : Result Json) (rest : Result (Option Json)) (m : Json)
    → matched_or r (measured_or q rest) rest ≡ ok (some m)
    → (r ≡ ok true) × (q ≡ ok m) × (truthy m ≡ true) ⊎ (rest ≡ ok (some m))
row-cases (err e) q rest m h = cc
row-cases (ok false) q rest m h = inr h
row-cases (ok true) (err e) rest m h = cc
row-cases (ok true) (ok n) rest m h = elim (if-cases (truthy n) (ok (some n)) rest h) [
  | inl (t, e) ↦ inl (refl, cc, cc)
  | inr (_, e) ↦ inr e
]

find_measurement-Row :
    (want : Text) (rows : Items) (m : Json)
    → find_measurement want rows ≡ ok (some m)
    → Row want rows m
unfolding find_measurement
find_measurement-Row want nil m h = cc
find_measurement-Row want (cons e es) m h =
    elim (row-cases (row_matches want e) (row_measurement e) (find_measurement want es) m h) [
      | inl (a, b, c) ↦ record { row = e; listed = inl refl; matches = a; measured = b; filled = c }
      | inr later ↦
          let r = find_measurement-Row want es m later in
          record {
            row = r.row;
            listed = inr r.listed;
            matches = r.matches;
            measured = r.measured;
            filled = r.filled;
          }
    ]

-- What the registry was asked, and what it answered.
pub record Published (env : Env) (registry_url base_url : Text) (m : Json) : Type 0 where
  pub answer : Json
  pub answered :
      env.fetch
        (record { url = rstrip b'/' registry_url ++ lit "/api/status"; headers = []; body = none })
      ≡ ok answer
  pub rows : Items
  pub rows_eq : rows_of answer ≡ ok rows
  pub published : Row (rstrip b'/' base_url) rows m

-- A measurement that is returned is one that the registry publishes in a row for this very address, up
-- to slashes at its end, and is not empty. Without such a row the lookup raises.
pub resolve_expected-Published :
    (env : Env) (registry_url base_url : Text) (m : Json)
    → resolve_expected env registry_url base_url ≡ ok m
    → Published env registry_url base_url m
unfolding resolve_expected
resolve_expected-Published env registry_url base_url m h =
    let (answer, ea, h0) = >>=-eq-ok (env.fetch _) _ h in
    let (rows, er, h1) = >>=-eq-ok (rows_of answer) _ h0 in
    let (found, ef, h2) = >>=-eq-ok (find_measurement (rstrip b'/' base_url) rows) _ h1 in
    record {
      answer = answer;
      answered = ea;
      rows = rows;
      rows_eq = er;
      published = find_measurement-Row _ rows m (ef ∙ ap ok (or_raise-eq-ok found _ h2));
    }
