-- ===== src/Deploy/Provision/Laws.antt =====
-- What a run of the provisioning may post and run, and the part of it that launches the machine.
use fidrouter.Base.{
  Text, lit, ◌++◌, List, [], ◌∷◌, Option, none, some, ◌≡◌, ◌≢◌, refl, ◌⊎◌, inl, inr, if-elim,
  if◌then◌else◌, same,
}
use fidrouter.Json.{Json, str, obj, Items, nil, cons, end, field, get}
use fidrouter.Json.Convert.{to_text}
use fidrouter.Exec.{pure, lift, ◌>>=◌, ◌>>◌}
use fidrouter.Deploy.Settings.{Place}
use fidrouter.Deploy.Account.{external_ip}
use fidrouter.Deploy.Machine.{Event, Machine, say, join_path}
use fidrouter.Deploy.Launch.{
  find_place, read_seed, delete_old, report_other, image_link, reserved_address, launch, save_state,
  state_of, instance_path,
}
use fidrouter.Deploy.Launch.Bodies.{given, Launches, vm_body-Launches}
use fidrouter.Deploy.Launch.Laws.{Only, Came, bind-Only, then-Only, lift-Only, save_state-Only}
use fidrouter.Deploy.Launch.Script.{
  ScriptEvent, kept, say-Only, delete_old-Only, report_other-Only, image_link-Only,
  reserved_address-Only, launch-Only,
}
use fidrouter.Deploy.Provision.{
  Args, tagged, family, go_build, login, create_builder, use_builder, build_image, tell, finish,
  read_back, body, with_address, with_image, replace, tee_env_of, with_seed, environ_or,
  read_digest,
}

-- The identity seed of a launch: the one of the environment, or if that has none the one of the keys,
-- or none if these cannot be read.
abbrev pub SeedOf : Machine → Text → Type 0
SeedOf m seed_hex =
    (seed_hex ≡ environ_or m (lit "FID_IDENTITY_SEED") [])
    ⊎ (environ_or m (lit "FID_IDENTITY_SEED") [] ≡ [])
      × (Came (read_seed m (join_path (join_path m.here (lit "../..")) (lit "config/keys.json")))
            seed_hex
          ⊎ (seed_hex ≡ []))

-- The settings of the workload: those of the two that are not empty.
abbrev pub Settings : Text → Text → Items → Type 0
Settings up_key seed_hex items =
    (up_key ≡ []) × (seed_hex ≡ []) × (items ≡ nil)
    ⊎ (up_key ≡ [])
      × (seed_hex ≢ [])
      × (items ≡ cons (given (lit "tee-env-FID_IDENTITY_SEED") seed_hex) nil)
    ⊎ (up_key ≢ [])
      × (seed_hex ≡ [])
      × (items ≡ cons (given (lit "tee-env-FID_ANTHROPIC_KEY") up_key) nil)
    ⊎ (up_key ≢ [])
      × (seed_hex ≢ [])
      × (items
          ≡ cons (given (lit "tee-env-FID_ANTHROPIC_KEY") up_key)
              (cons (given (lit "tee-env-FID_IDENTITY_SEED") seed_hex) nil))

tee_env_of-Settings :
    (up_key seed_hex : Text) → Settings up_key seed_hex (tee_env_of up_key seed_hex)
unfolding same
tee_env_of-Settings [] [] = inl (refl, refl, refl)
tee_env_of-Settings [] (c ∷ s) = inr (inl (refl, (λ h. cc h), refl))
tee_env_of-Settings (c ∷ s) [] = inr (inr (inl ((λ h. cc h), refl, refl)))
tee_env_of-Settings (c ∷ s) (d ∷ t) = inr (inr (inr ((λ h. cc h), (λ h. cc h), refl)))

-- The bodies that may be posted: the repository of images, and the machine on the image by the digest
-- that the build left, with the settings of the workload, at the place that the settings name.
abbrev pub Created : Machine → Text → Json → Type 0
Created m url j =
    (pl : Place) × Came (find_place m) pl
    × ((url
            ≡ lit "https://artifactregistry.googleapis.com/v1/projects/"
              ++ (pl.p
                  ++ (lit "/locations/" ++ (pl.r ++ lit "/repositories?repositoryId=fidrouter"))))
          × (j ≡ obj (field (lit "format") (str (lit "DOCKER")) end))
        ⊎ (digest : Json) × Came (read_digest m) digest
          × (seed_hex : Text) × SeedOf m seed_hex
          × (settings : Items) × Settings (environ_or m (lit "FID_ANTHROPIC_KEY") []) seed_hex
              settings
          × Launches pl (to_text m.floats digest) settings url j)

-- The commands that may be run, none of which has a token among its arguments: it is read from the
-- standard input of the login.
abbrev pub Command : Machine → List Text → Option Text → Type 0
Command m argv input =
    (pl : Place) × ((argv ≡ login pl) × ((tok : Text) × (input ≡ some (tok ++ 10 ∷ [])))
      ⊎ (input ≡ none)
        × ((argv ≡ go_build m)
            ⊎ (argv ≡ create_builder)
            ⊎ (argv ≡ use_builder)
            ⊎ (argv ≡ build_image m pl)))

module _ (m : Machine) where
  abbrev pub Ours : Event → Type 0
  Ours e = ScriptEvent m (Created m) (Command m) e

  abbrev pub say-Ours : (line : Text) → Only Ours (say line)
  say-Ours line = say-Only m (Created m) (Command m) line

  tell-Only : (digest : Text) (inst ip : Json) → Only Ours (tell m digest inst ip)
  unfolding tell
  tell-Only digest inst ip =
      let first = λ (status : Json).
        lit "\nCS VM fid-proxy-cs status="
        ++ (to_text m.floats status ++ (lit " ip=" ++ to_text m.floats ip)) in
      let second = lit "client pin_measurement (image_digest) = " ++ digest in
      bind-Only Ours (lift (get inst (lit "status"))) (λ status. (say (first status) >> say second))
        (lift-Only Ours (get inst (lit "status")))
        λ status.
          then-Only Ours (say (first status)) (say second) (say-Ours (first status))
            (say-Ours second)

  finish-Only : (pl : Place) (digest inst ip : Json) → Only Ours (finish m pl digest inst ip)
  unfolding finish
  finish-Only pl digest inst ip =
      let state = state_of (str (tagged pl)) digest ip in
      let path = join_path m.here (lit "cs_state.json") in
      then-Only Ours (save_state m path state) (tell m (to_text m.floats digest) inst ip)
        (save_state-Only Ours m path state (kept path state))
        (tell-Only (to_text m.floats digest) inst ip)

  read_back-Only : (pl : Place) (digest inst : Json) → Only Ours (read_back m pl digest inst)
  unfolding read_back
  read_back-Only pl digest inst =
      bind-Only Ours (lift (external_ip inst)) (finish m pl digest inst)
        (lift-Only Ours (external_ip inst)) (finish-Only pl digest inst)

  module _ (a : Args) (pl : Place) (pf : Came (find_place m) pl) (digest : Json)
      (df : Came (read_digest m) digest) where
    abbrev up_key : Text
    up_key = environ_or m (lit "FID_ANTHROPIC_KEY") []

    with_address-Only :
        (seed_hex : Text) (sf : SeedOf m seed_hex) (cs_image enc_ip : Json)
        → Only Ours (with_address m pl digest (tee_env_of up_key seed_hex) cs_image enc_ip)
    unfolding with_address
    with_address-Only seed_hex sf cs_image enc_ip =
        let j = body m pl digest (tee_env_of up_key seed_hex) cs_image enc_ip in
        bind-Only Ours (launch m pl.p pl.z j 20) (read_back m pl digest)
          (launch-Only m (Created m) (Command m) pl.p pl.z j 20 (
            pl,
            pf,
            inr (
              digest,
              df,
              seed_hex,
              sf,
              tee_env_of up_key seed_hex,
              tee_env_of-Settings up_key seed_hex,
              vm_body-Launches pl (to_text m.floats digest) (tee_env_of up_key seed_hex) cs_image
                  enc_ip,
            ),
          ))
          (read_back-Only pl digest)

    with_image-Only :
        (seed_hex : Text) (sf : SeedOf m seed_hex) (cs_image : Json)
        → Only Ours (with_image m pl digest (tee_env_of up_key seed_hex) cs_image)
    unfolding with_image
    with_image-Only seed_hex sf cs_image =
        bind-Only Ours (reserved_address m pl.p pl.r)
          (with_address m pl digest (tee_env_of up_key seed_hex) cs_image)
          (reserved_address-Only m (Created m) (Command m) pl.p pl.r)
          (with_address-Only seed_hex sf cs_image)

    replace-Only :
        (seed_hex : Text)
        → SeedOf m seed_hex
        → Only Ours (replace m a pl digest (tee_env_of up_key seed_hex))
    unfolding replace
    replace-Only seed_hex sf =
        let path = instance_path pl.p pl.z in
        let line = lit "deleting existing fid-proxy-cs …" in
        let report = report_other (lit "delete fid-proxy-cs: ") in
        let create = with_image m pl digest (tee_env_of up_key seed_hex) in
        then-Only Ours (delete_old m path line (pure tt) 30 report)
          (image_link m (family a) >>= create)
          (delete_old-Only m (Created m) (Command m) path line (pure tt) 30 report (λ s t h. h)
            (report_other-Only m (Created m) (Command m) (lit "delete fid-proxy-cs: ")))
          (bind-Only Ours (image_link m (family a)) create
            (image_link-Only m (Created m) (Command m) (family a)) (with_image-Only seed_hex sf))

    pub with_seed-Only :
        (seed_hex : Text) → SeedOf m seed_hex → Only Ours (with_seed m a pl digest up_key seed_hex)
    unfolding with_seed
    with_seed-Only seed_hex sf =
        let line =
          lit "injecting identity seed via tee-env-FID_IDENTITY_SEED (not baked into image)" in
        then-Only Ours (if same seed_hex [] then pure tt else say line)
          (replace m a pl digest (tee_env_of up_key seed_hex))
          (if-elim (Only Ours) (same seed_hex []) (pure tt) (say line) (λ s t h. h) (say-Ours line))
          (replace-Only seed_hex sf)
