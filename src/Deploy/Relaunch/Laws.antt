-- ===== src/Deploy/Relaunch/Laws.antt =====
-- Every launch is on the image of the fixed digest, with the identity seed and no other setting.
use fidrouter.Base.{Text, lit, ◌++◌, List, Option, ◌≡◌, refl}
use fidrouter.Json.{Json, str, get}
use fidrouter.Json.Convert.{to_text}
use fidrouter.Exec.{pure, lift, ◌>>=◌}
use fidrouter.Deploy.Settings.{Place}
use fidrouter.Deploy.Account.{external_ip}
use fidrouter.Deploy.Machine.{Event, Machine, Session, say}
use fidrouter.Deploy.Launch.{
  find_place, read_seed, image_link, launch, save_state, state_of, image_name, instance_path,
  instances_path,
}
use fidrouter.Deploy.Launch.Laws.{
  Extends, Extends-refl, Only, bind-Only, then-Only, lift-Only, save_state-Only,
}
use fidrouter.Deploy.Launch.Script.{
  ScriptEvent, kept, say-Only, delete_old-Only, image_link-Only, launch-Only, find_place-Only,
  read_seed-Only,
}
use fidrouter.Deploy.Relaunch.{
  body, digest, tell, finish, read_back, with_image, with_seed, with_place, main,
}

-- The one body that may be posted: at the machine's address, with the image of the digest.
abbrev Created : Text → Json → Type 0
Created url j =
    (pl : Place) × (seed_hex : Text) × (cs_image : Json) × (url ≡ instances_path pl.p pl.z)
    × (j ≡ body pl seed_hex cs_image)

-- No command is run.
abbrev NoCommand : List Text → Option Text → Type 0
NoCommand argv input = ⊥

module _ (m : Machine) where
  abbrev Ours : Event → Type 0
  Ours e = ScriptEvent m Created NoCommand e

  tell-Only : (inst ip : Json) → Only Ours (tell m inst ip)
  unfolding tell
  tell-Only inst ip =
      let line = λ (status : Json).
        say (lit "status: " ++ (to_text m.floats status ++ (lit " ip: " ++ to_text m.floats ip))) in
      bind-Only Ours (lift (get inst (lit "status"))) line
        (lift-Only Ours (get inst (lit "status"))) λ status. say-Only m Created NoCommand _

  finish-Only : (pl : Place) (inst ip : Json) → Only Ours (finish m pl inst ip)
  unfolding finish
  finish-Only pl inst ip =
      let state = state_of (str (image_name pl ++ lit ":latest")) (str digest) ip in
      then-Only Ours (save_state m (lit "cs_state.json") state) (tell m inst ip)
        (save_state-Only Ours m (lit "cs_state.json") state (kept (lit "cs_state.json") state))
        (tell-Only inst ip)

  read_back-Only : (pl : Place) (inst : Json) → Only Ours (read_back m pl inst)
  unfolding read_back
  read_back-Only pl inst =
      bind-Only Ours (lift (external_ip inst)) (finish m pl inst)
        (lift-Only Ours (external_ip inst)) (finish-Only pl inst)

  with_image-Only :
      (pl : Place) (seed_hex : Text) (cs_image : Json)
      → Only Ours (with_image m pl seed_hex cs_image)
  unfolding with_image
  with_image-Only pl seed_hex cs_image =
      let j = body pl seed_hex cs_image in
      bind-Only Ours (launch m pl.p pl.z j 18) (read_back m pl)
        (launch-Only m Created NoCommand pl.p pl.z j 18 (pl, seed_hex, cs_image, refl, refl))
        (read_back-Only pl)

  with_seed-Only : (pl : Place) (seed_hex : Text) → Only Ours (with_seed m pl seed_hex)
  unfolding with_seed
  with_seed-Only pl seed_hex =
      let fam = lit "confidential-space" in
      then-Only Ours _ (image_link m fam >>= with_image m pl seed_hex)
        (delete_old-Only m Created NoCommand (instance_path pl.p pl.z) (lit "deleting old VM...")
          (pure tt) 40 (λ message _ _. say (lit "delete: " ++ message)) (λ s t h. h)
          λ message _ _. say-Only m Created NoCommand (lit "delete: " ++ message))
        (bind-Only Ours (image_link m fam) (with_image m pl seed_hex)
          (image_link-Only m Created NoCommand fam) (with_image-Only pl seed_hex))

  with_place-Only : (pl : Place) → Only Ours (with_place m pl)
  unfolding with_place
  with_place-Only pl =
      bind-Only Ours (read_seed m (lit "../../config/keys.json")) (with_seed m pl)
        (read_seed-Only m Created NoCommand (lit "../../config/keys.json")) (with_seed-Only pl)

  -- Whatever happens in a run of the script, and wherever it stops, all that it does is to read and to
  -- delete, to trade for tokens, to print, to wait, to save its state, and to post bodies that
  -- create the machine at the image of the fixed digest, with the restart policy and the identity
  -- seed for its only metadata beside it.
  main-Only : (s : Session) → Extends Ours s (main m s).1
  unfolding main
  main-Only s =
      bind-Only Ours (find_place m) (with_place m) (find_place-Only m Created NoCommand)
        with_place-Only s s (Extends-refl Ours s)
