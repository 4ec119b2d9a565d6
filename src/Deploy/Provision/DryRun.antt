-- ===== src/Deploy/Provision/DryRun.antt =====
-- Without consent the provisioning only prints its plan.
use fidrouter.Base.{Text, Bool, true, false, ◌≡◌, refl, if◌then◌else◌}
use fidrouter.Exec.{Exec, lift}
use fidrouter.Deploy.Settings.{Place, place_of}
use fidrouter.Deploy.Machine.{Event, printed, Machine, Session, say}
use fidrouter.Deploy.Gcp.{load_env}
use fidrouter.Deploy.Launch.{find_place}
use fidrouter.Deploy.Launch.Laws.{
  Extends, Extends-refl, Only, emit-Only, bind-Only, then-Only, lift-Only, load_env-Only,
}
use fidrouter.Deploy.Provision.{Args, plan_line, dry_line, proceed, with_place, provision}

abbrev pub IsPrinted : Event → Type 0
IsPrinted e = (line : Text) × (e ≡ printed line)

say-Only : (line : Text) → Only IsPrinted (say line)
say-Only line = emit-Only IsPrinted (printed line) (line, refl)

unconfirmed-Only :
    (b : Bool) (go stop : Exec Session (Unit {0}))
    → b ≡ false
    → Only IsPrinted stop
    → Only IsPrinted (if b then go else stop)
unconfirmed-Only true go stop e h = absurd (cc e)
unconfirmed-Only false go stop e h = h

with_place-IsPrinted :
    (m : Machine) (a : Args) (pl : Place) → a.confirmed ≡ false → Only IsPrinted (with_place m a pl)
unfolding with_place
with_place-IsPrinted m a pl e =
    then-Only IsPrinted (say (plan_line a pl))
      (if a.confirmed then proceed m a pl else say dry_line) (say-Only (plan_line a pl))
      (unconfirmed-Only a.confirmed (proceed m a pl) (say dry_line) e (say-Only dry_line))

find_place-IsPrinted : (m : Machine) → Only IsPrinted (find_place m)
unfolding find_place
find_place-IsPrinted m =
    bind-Only IsPrinted (load_env m) (λ env. lift (place_of env)) (load_env-Only m IsPrinted)
      λ env. lift-Only IsPrinted (place_of env)

-- Without `--yes`, a run returns or raises having printed and done nothing else: it sends no request,
-- runs no command and changes no file.
pub provision_dry :
    (m : Machine) (a : Args) (s : Session)
    → a.confirmed ≡ false
    → Extends IsPrinted s (provision m a s).1
unfolding provision
provision_dry m a s e =
    bind-Only IsPrinted (find_place m) (with_place m a) (find_place-IsPrinted m)
      (λ pl. with_place-IsPrinted m a pl e) s s (Extends-refl IsPrinted s)
