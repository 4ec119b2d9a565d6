-- ===== src/Adapter/Server/Laws.antt =====
-- Fail closed: when the handler hands out a token.
use fidrouter.Base.{
  ◌≢◌, ℕ, Text, lit, true, false, Option, none, some, List, [], ◌∷◌, Result, ok, err, ℤ, >>=-eq-ok,
  same, same_iff, among, if-cases, Bool-cases, Option-cases, arith, ◌≡◌, refl, sym, ap, ◌∙◌, ◌⊎◌,
  inl, inr, unavailable,
}
use fidrouter.Text.Strip.{strip}
use fidrouter.Exec.{ok-injective}
use fidrouter.Json.{Json, str, get, as_text, or_else}
use fidrouter.Json.Laws.{as_text-eq}
use fidrouter.Adapter.Verdict.{Verdict}
use fidrouter.Adapter.Token.{Host, Settings, mint_capability, tenant_for, token_ttl}
use fidrouter.Adapter.Server.{
  Sent, Post, is_empty, body_length, read_body, group_gate, known_quota, granted, subject_or,
  token_amount, grant, after_quota, after_gate, admit, answer_verdict, with_body, do_post,
}

-- Any group where none is required, and else one of those on the list.
abbrev pub Allowed : Settings → Verdict → Type 0
Allowed s v =
    (s.allowed_groups ≡ []) ⊎ ((g : Text) × (v.group ≡ some g) × (among g s.allowed_groups ≡ true))

-- What the answer is worth that hands out a token: its verdict says yes, in a group that is allowed
-- where groups are restricted, with a quota that the gateway reported or that the operator set as a
-- cap, and the token is minted for just that quota, that subject and that validity.
pub record Granted (h : Host) (s : Settings) (sk : Text) (v : Verdict) (sent : Sent) : Type 0 where
  pub accepted : v.ok_flag ≡ true
  pub allowed : Allowed s v
  pub quota : ℕ
  pub quota_eq :
      (v.remaining_usd ≡ some quota)
      ⊎ (v.remaining_usd ≡ none)
        × (same s.quota_unknown (lit "refuse") ≡ false)
        × (quota ≡ s.quota_cap)
  pub tenant : Text
  pub tenant_eq : tenant_for h (subject_or v sk) ≡ ok tenant
  pub ttl : ℤ
  pub ttl_eq : token_ttl h s v.expires_at ≡ ok ttl
  pub amount : ℤ
  pub amount_eq : token_amount h s quota ≡ ok amount
  pub token : Text
  pub token_eq : mint_capability h s tenant amount v.models ttl ≡ ok token
  pub sent_eq : sent ≡ granted s v token tenant

is_empty-eq : (gs : List Text) → is_empty gs ≡ true → gs ≡ []
is_empty-eq [] h = refl
is_empty-eq (g ∷ gs) h = cc

group_gate-none : (s : Settings) (v : Verdict) → group_gate s v ≡ none → Allowed s v
unfolding group_gate
group_gate-none s v h = elim (Bool-cases (is_empty s.allowed_groups)) [
  | inl e ↦ inl (is_empty-eq s.allowed_groups e)
  | inr e ↦ elim (Option-cases v.group) [
    | inl n ↦ absurd (cc (rw (e, n) at h))
    | inr (g, eg) ↦ elim (Bool-cases (among g s.allowed_groups)) [
      | inl a ↦ inr (g, eg, a)
      | inr a ↦ absurd (cc (rw (e, eg, a) at h))
    ]
  ]
]

abbrev code_of : Option Sent → ℕ
code_of none = 0
code_of (some r) = r.code

-- A gate that stops a key does so with an error.
group_gate-some :
    (s : Settings) (v : Verdict) (r : Sent)
    → group_gate s v ≡ some r
    → (r.code ≡ 503) ⊎ (r.code ≡ 403)
unfolding group_gate
group_gate-some s v r h = elim (Bool-cases (is_empty s.allowed_groups)) [
  | inl e ↦ absurd (cc (rw e at h))
  | inr e ↦ elim (Option-cases v.group) [
    | inl n ↦ inl (sym (ap code_of (rw (e, n) at h)))
    | inr (g, eg) ↦ elim (Bool-cases (among g s.allowed_groups)) [
      | inl a ↦ absurd (cc (rw (e, eg, a) at h))
      | inr a ↦ inr (sym (ap code_of (rw (e, eg, a) at h)))
    ]
  ]
]

some-injective : (a b : ℕ) → some a ≡ some b → a ≡ b
some-injective a b h = cc

known_quota-some :
    (s : Settings) (o : Option ℕ) (quota : ℕ)
    → known_quota s o ≡ some quota
    → (o ≡ some quota)
      ⊎ (o ≡ none) × (same s.quota_unknown (lit "refuse") ≡ false) × (quota ≡ s.quota_cap)
unfolding known_quota
known_quota-some s (some w) quota h = inl h
known_quota-some s none quota h = elim (Bool-cases (same s.quota_unknown (lit "refuse"))) [
  | inl e ↦ absurd (cc (rw e at h))
  | inr e ↦ inr (refl, e, sym (some-injective _ _ (rw e at h)))
]

not_stopped : (r sent : Sent) → r ≡ sent → (r.code ≡ 503) ⊎ (r.code ≡ 403) → sent.code ≡ 200 → ⊥
not_stopped r sent e h opens = ground (arith, ap (λ t. t.code) e)

-- A failure is answered with another status.
not_failed :
    (code : ℕ) {body : Json} (sent : Sent)
    → ◌≡◌ {A = Sent} (record { code = code; body = body }) sent
    → sent.code ≡ 200
    → code ≢ 200
    → ⊥
not_failed code sent e opens h = h (ap (λ t. t.code) e ∙ opens)

module _ (h : Host) (s : Settings) (sk : Text) where
  grant-Granted :
      (v : Verdict) (quota : ℕ) (sent : Sent)
      → v.ok_flag ≡ true
      → Allowed s v
      → known_quota s v.remaining_usd ≡ some quota
      → grant h s sk v quota ≡ ok sent
      → Granted h s sk v sent
  unfolding grant
  grant-Granted v quota sent accepted allowed eq e =
      let (tenant, et, e0) = >>=-eq-ok (tenant_for h (subject_or v sk)) _ e in
      let (ttl, el, e1) = >>=-eq-ok (token_ttl h s v.expires_at) _ e0 in
      let (amount, ea, e2) = >>=-eq-ok (token_amount h s quota) _ e1 in
      let (token, ek, e3) = >>=-eq-ok (mint_capability h s tenant amount v.models ttl) _ e2 in
      record {
        accepted = accepted;
        allowed = allowed;
        quota = quota;
        quota_eq = known_quota-some s v.remaining_usd quota eq;
        tenant = tenant;
        tenant_eq = et;
        ttl = ttl;
        ttl_eq = el;
        amount = amount;
        amount_eq = ea;
        token = token;
        token_eq = ek;
        sent_eq = sym (ok-injective _ sent e3);
      }

  after_quota-Granted :
      (v : Verdict) (o : Option ℕ) (sent : Sent)
      → v.ok_flag ≡ true
      → Allowed s v
      → known_quota s v.remaining_usd ≡ o
      → sent.code ≡ 200
      → after_quota h s sk v o ≡ ok sent
      → Granted h s sk v sent
  unfolding after_quota
  after_quota-Granted v none sent accepted allowed eq opens e =
      absurd (not_failed 503 sent (ok-injective _ sent e) opens (λ n. omega arith))
  after_quota-Granted v (some quota) sent accepted allowed eq opens e =
      grant-Granted v quota sent accepted allowed eq e

  after_gate-Granted :
      (v : Verdict) (o : Option Sent) (sent : Sent)
      → v.ok_flag ≡ true
      → group_gate s v ≡ o
      → sent.code ≡ 200
      → after_gate h s sk v o ≡ ok sent
      → Granted h s sk v sent
  unfolding after_gate
  after_gate-Granted v none sent accepted passed opens e =
      after_quota-Granted v _ sent accepted (group_gate-none s v passed) refl opens e
  after_gate-Granted v (some r) sent accepted stopped opens e =
      absurd (not_stopped r sent (ok-injective r sent e) (group_gate-some s v r stopped) opens)

  answer_verdict-Granted :
      (r : Result Verdict) (sent : Sent)
      → sent.code ≡ 200
      → answer_verdict h s sk r ≡ ok sent
      → (v : Verdict) × (r ≡ ok v) × Granted h s sk v sent
  unfolding answer_verdict admit
  answer_verdict-Granted (ok v) sent opens e = elim (if-cases v.ok_flag (admit h s sk v) _ e) [
    | inl (says, x) ↦ (v, refl, after_gate-Granted v _ sent says refl opens x)
    | inr (denied, x) ↦
        absurd (not_failed 401 sent (ok-injective _ sent x) opens (λ n. omega arith))
  ]
  answer_verdict-Granted (err (unavailable m)) sent opens e =
      absurd (not_failed 503 sent (ok-injective _ sent e) opens (λ n. omega arith))
  answer_verdict-Granted (err _) sent opens e = cc

-- A key that was sent in the body of a request, stripped, and is not empty.
pub record Exchanged (h : Host) (s : Settings) (r : Post) (sent : Sent) : Type 0 where
  pub path_eq : r.path ≡ lit "/exchange"
  pub size : ℤ
  pub size_eq : body_length r.content_length ≡ ok size
  pub body : Json
  pub body_eq : read_body h size r.payload ≡ ok body
  pub key : Json
  pub key_eq : get body (lit "key") ≡ ok key
  pub text : Text
  pub text_eq : or_else key (str []) ≡ str text
  pub nonempty : same (strip text) [] ≡ false
  pub verdict : Verdict
  pub validated : s.validate (strip text) ≡ ok verdict
  pub granted_eq : Granted h s (strip text) verdict sent

module _ (h : Host) (s : Settings) (r : Post) where
  with_body-Exchanged :
      (size : ℤ) (b : Result Json) (sent : Sent)
      → r.path ≡ lit "/exchange"
      → body_length r.content_length ≡ ok size
      → read_body h size r.payload ≡ b
      → sent.code ≡ 200
      → with_body h s b ≡ ok sent
      → Exchanged h s r sent
  unfolding with_body
  with_body-Exchanged size (err e) sent path es eb opens x =
      absurd (not_failed 400 sent (ok-injective _ sent x) opens (λ e. omega arith))
  with_body-Exchanged size (ok body) sent path es eb opens x =
      let (key, ek, x0) = >>=-eq-ok (get body (lit "key")) _ x in
      let (text, et, x1) = >>=-eq-ok (as_text (or_else key (str []))) _ x0 in
      elim (Bool-cases (same (strip text) [])) [
        | inl empty ↦
            absurd
              (not_failed 400 sent (ok-injective _ sent (rw empty at x1)) opens (λ e. omega arith))
        | inr some_key ↦
            let (v, ev, g) =
              answer_verdict-Granted h s (strip text) (s.validate (strip text)) sent opens
                (rw some_key at x1) in
            record {
              path_eq = path;
              size = size;
              size_eq = es;
              body = body;
              body_eq = eb;
              key = key;
              key_eq = ek;
              text = text;
              text_eq = as_text-eq _ text et;
              nonempty = some_key;
              verdict = v;
              validated = ev;
              granted_eq = g;
            }
      ]

  -- The handler answers 200 to nothing but a request on its one path whose key, which is not empty,
  -- the validator accepts, in a group that is allowed where groups are restricted, with a quota that
  -- is reported or else capped by the operator. A refusal, an outage, an unknown group and, under
  -- the policy that refuses it, an unknown quota never come to a token; and the token handed out is
  -- the one minted for that tenant, that amount and that validity.
  pub do_post_grants :
      (sent : Sent) → do_post h s r ≡ ok sent → sent.code ≡ 200 → Exchanged h s r sent
  unfolding do_post
  do_post_grants sent x opens = elim (Bool-cases (same r.path (lit "/exchange"))) [
    | inr other ↦
        absurd (not_failed 404 sent (ok-injective _ sent (rw other at x)) opens (λ e. omega arith))
    | inl path ↦
        let (size, es, x0) = >>=-eq-ok (body_length r.content_length) _ (rw path at x) in
        with_body-Exchanged size _ sent ((same_iff _ _).0 path) es refl opens x0
  ]
