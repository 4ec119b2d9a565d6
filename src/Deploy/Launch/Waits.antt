-- ===== src/Deploy/Launch/Waits.antt =====
-- The loop that waits for the machine to be gone is bounded.
use fidrouter.Base.{
  ℕ, zero, suc, ◌+◌, ◌≤◌, Text, Bool, true, false, List, [], ◌∷◌, ◌++◌, ◌≡◌, refl, ap, ◌∙◌, All,
  arith,
}
use fidrouter.Exec.{Exec, pure, after-cases, ◌>>=◌}
use fidrouter.Deploy.Machine.{
  Event, called, printed, slept, ran, changed, saved, Machine, Session, added,
}
use fidrouter.Deploy.Gcp.{api_get}
use fidrouter.Deploy.Launch.{stop_or_go, is_gone, wait_gone}
use fidrouter.Deploy.Launch.Laws.{Only, Extends, Extends-refl, catch_gcp-Only, bind-Only, api-Only}

-- The sleeps among events.
unfoldable pub sleeps : List Event → ℕ
sleeps [] = 0
sleeps (slept n ∷ es) = suc (sleeps es)
sleeps (called c ∷ es) = sleeps es
sleeps (printed l ∷ es) = sleeps es
sleeps (ran a i ∷ es) = sleeps es
sleeps (changed o a ∷ es) = sleeps es
sleeps (saved p j ∷ es) = sleeps es

sleeps-append : (es fs : List Event) → sleeps (es ++ fs) ≡ sleeps es + sleeps fs
unfolding sleeps
sleeps-append [] fs = omega arith
sleeps-append (slept n ∷ es) fs = omega (arith, sleeps-append es fs)
sleeps-append (called c ∷ es) fs = sleeps-append es fs
sleeps-append (printed l ∷ es) fs = sleeps-append es fs
sleeps-append (ran a i ∷ es) fs = sleeps-append es fs
sleeps-append (changed o a ∷ es) fs = sleeps-append es fs
sleeps-append (saved p j ∷ es) fs = sleeps-append es fs

-- An event that is no sleep.
abbrev pub IsAwake : Event → Type 0
IsAwake e = sleeps (e ∷ []) ≡ 0

sleeps_awake : (es : List Event) → All IsAwake es → sleeps es ≡ 0
sleeps_awake [] h = unfold sleeps in refl
sleeps_awake (e ∷ es) (he, hs) = sleeps-append (e ∷ []) es ∙ omega (arith, he, sleeps_awake es hs)

Extends-IsAwake : (s t : Session) → Extends IsAwake s t → sleeps t.events ≡ sleeps s.events
Extends-IsAwake s t (es, e, h) =
    ap sleeps e ∙ sleeps-append s.events es ∙ omega (arith, sleeps_awake es h)

is_gone-IsAwake : (m : Machine) (path : Text) → Only IsAwake (is_gone m path)
unfolding is_gone
is_gone-IsAwake m path =
    catch_gcp-Only IsAwake (api_get m path >>= λ _. pure false) (λ _ _ _. pure true)
      (bind-Only IsAwake (api_get m path) (λ _. pure false)
        (api-Only m IsAwake (λ _ _. unfold sleeps in refl) _ path _ λ _ _ _. unfold sleeps in refl)
        λ _ s t h. h)
      λ _ _ _ s t h. h

module _ (m : Machine) (path : Text) (on_gone : Exec Session (Unit {0}))
    (quiet : Only IsAwake on_gone) where
  -- Whether the loop returns or raises, it has slept no more often than its bound, wherever it stopped.
  pub wait_gone_bounded :
      (n : ℕ) (s : Session) → sleeps (wait_gone m path on_gone n s).1.events ≤ sleeps s.events + n
  unfolding wait_gone
  wait_gone_bounded zero s = omega arith
  wait_gone_bounded (suc n) s =
      let t = added s (slept 4) in
      let out = is_gone m path t in
      let go = wait_gone m path on_gone n in
      let slept_once : sleeps t.events ≡ sleeps s.events + 1 =
        sleeps-append s.events (slept 4 ∷ []) ∙ unfold sleeps in refl in
      let asked : sleeps out.1.events ≡ sleeps t.events =
        Extends-IsAwake t out.1 (is_gone-IsAwake m path t t (Extends-refl IsAwake t)) in
      after-cases (λ o. sleeps o.1.events ≤ sleeps s.events + suc n) out.0 (stop_or_go on_gone go)
        out.1 (λ _ _. omega (arith, slept_once, asked))
        λ gone _.
          stop_or_go-bounded gone out.1
            (omega (arith, slept_once, asked, wait_gone_bounded n out.1))
            (omega (
              arith,
              slept_once,
              asked,
              Extends-IsAwake out.1 (on_gone out.1).1
                  (quiet out.1 out.1 (Extends-refl IsAwake out.1)),
            ))
    where
      stop_or_go-bounded :
          (gone : Bool) (u : Session)
          → sleeps (wait_gone m path on_gone n u).1.events ≤ sleeps s.events + suc n
          → sleeps (on_gone u).1.events ≤ sleeps s.events + suc n
          → sleeps (stop_or_go on_gone (wait_gone m path on_gone n) gone u).1.events
            ≤ sleeps s.events + suc n
      stop_or_go-bounded true u hg hs = hs
      stop_or_go-bounded false u hg hs = hg
