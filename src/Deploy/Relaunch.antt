-- ===== src/Deploy/Relaunch.antt =====
-- deploy/gcp/relaunch_cs.py: the machine is launched again on the image of a fixed digest.
pub mod Laws
use fidrouter.Base.{ℕ, Text, lit, ◌++◌, ◌∷◌, Result, pos}
use fidrouter.Json.{Json, str, Items, nil, cons, end, get}
use fidrouter.Json.Convert.{to_text}
use fidrouter.Exec.{Exec, pure, lift, ◌>>=◌, ◌>>◌}
use fidrouter.Deploy.Settings.{Place}
use fidrouter.Deploy.Account.{external_ip}
use fidrouter.Deploy.Machine.{Machine, Session, say}
use fidrouter.Deploy.Launch.{
  find_place, read_seed, delete_old, image_link, launch, save_state, state_of, access_fields,
  vm_body, metadata, entry, image_name, instance_path,
}

abbrev pub digest : Text
digest = lit "sha256:08b44d2113a530a71563c28a9a97d49b401bef7dad889695b33fc2b8a2818d0d"

abbrev pub tee_env : Text → Items
tee_env seed_hex = cons (entry (lit "tee-env-FID_IDENTITY_SEED") (str seed_hex)) nil

-- `body`
abbrev pub body : Place → Text → Json → Json
body pl seed_hex cs_image =
    vm_body pl.p pl.z cs_image (access_fields end) (metadata pl digest (tee_env seed_hex))

unfoldable pub tell : Machine → Json → Json → Exec Session (Unit {0})
tell m inst ip = lift (get inst (lit "status")) >>= λ status.
    say (lit "status: " ++ (to_text m.floats status ++ (lit " ip: " ++ to_text m.floats ip)))

unfoldable pub finish : Machine → Place → Json → Json → Exec Session (Unit {0})
unfolding save_state tell
finish m pl inst ip =
    save_state m (lit "cs_state.json")
      (state_of (str (image_name pl ++ lit ":latest")) (str digest) ip)
    >> tell m inst ip

unfoldable pub read_back : Machine → Place → Json → Exec Session (Unit {0})
unfolding external_ip finish
read_back m pl inst = lift (external_ip inst) >>= finish m pl inst

unfoldable pub with_image : Machine → Place → Text → Json → Exec Session (Unit {0})
unfolding launch vm_body read_back
with_image m pl seed_hex cs_image =
    launch m pl.p pl.z (body pl seed_hex cs_image) 18 >>= read_back m pl

unfoldable pub with_seed : Machine → Place → Text → Exec Session (Unit {0})
unfolding delete_old image_link with_image
with_seed m pl seed_hex =
    delete_old m (instance_path pl.p pl.z) (lit "deleting old VM...") (pure tt) 40
      (λ message _ _. say (lit "delete: " ++ message))
    >> (image_link m (lit "confidential-space") >>= with_image m pl seed_hex)

unfoldable pub with_place : Machine → Place → Exec Session (Unit {0})
unfolding read_seed with_seed
with_place m pl = read_seed m (lit "../../config/keys.json") >>= with_seed m pl

-- `main()`
unfoldable pub main : Machine → Exec Session (Unit {0})
unfolding find_place with_place
main m = find_place m >>= with_place m
