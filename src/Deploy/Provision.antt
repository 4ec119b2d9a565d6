-- ===== src/Deploy/Provision.antt =====
-- deploy/gcp/cs_provision.py: the image is built, pushed and launched.
pub mod Laws
pub mod Runs
pub mod DryRun
use fidrouter.Base.{
  ℕ, ◌-◌, Text, lit, Bool, true, false, Option, none, some, List, [], ◌∷◌, ◌++◌, Result, ok, err,
  Error, system_exit, length, drop, same, ◌==◌, if◌then◌else◌,
}
use fidrouter.Text.Strip.{is_infix}
use fidrouter.Json.{Json, str, obj, Items, nil, cons, end, field, get, get_or, as_text, truthy}
use fidrouter.Json.Convert.{to_text}
use fidrouter.Exec.{Exec, pure, lift, ◌>>=◌, ◌>>◌}
use fidrouter.Deploy.Settings.{Place}
use fidrouter.Deploy.Account.{external_ip}
use fidrouter.Deploy.Machine.{
  Ended, Event, changed, Machine, Session, emit, say, catch_gcp, join_path,
}
use fidrouter.Deploy.Gcp.{api_post, token}
use fidrouter.Deploy.Launch.{
  run_command, check_command, change, load_json, find_place, read_seed, delete_old, report_other,
  image_link, reserved_address, launch, save_state, state_of, access_conf, vm_body, metadata, entry,
  host_of, image_name, instance_path,
}

-- `args`; the third argument is read by nothing.
pub record Args : Type 0 where
  pub confirmed : Bool
  pub debug_image : Bool

-- `os.environ.get(k, d)`
abbrev pub environ_or : Machine → Text → Text → Text
environ_or m k d = elim (m.environ k) [ none ↦ d | some v ↦ v ]

-- `" ".join(argv)`
abbrev pub joined : List Text → Text
joined [] = []
joined (a ∷ []) = a
joined (a ∷ b ∷ argv) = a ++ b' ' ∷ joined (b ∷ argv)

abbrev pub docker : List Text → List Text
docker argv = lit "sudo" ∷ lit "-n" ∷ lit "docker" ∷ argv

abbrev pub context : Machine → Text
context m = join_path (join_path m.here (lit "cs")) (lit "_ctx")

abbrev pub root : Machine → Text
root m = join_path m.here (lit "../..")

abbrev pub tagged : Place → Text
tagged pl = image_name pl ++ lit ":latest"

abbrev pub family : Args → Text
family a = if a.debug_image then lit "confidential-space-debug" else lit "confidential-space"

-- The five commands.
unfoldable pub go_build : Machine → List Text
go_build m =
    environ_or m (lit "GO") (lit "/home/ubuntu/.local/go/bin/go")
    ∷ lit "build"
    ∷ lit "-trimpath"
    ∷ lit "-buildvcs=false"
    ∷ lit "-ldflags=-buildid="
    ∷ lit "-o"
    ∷ join_path (context m) (lit "fid-proxy")
    ∷ lit "./cmd/fid-proxy"
    ∷ []

abbrev pub login : Place → List Text
login pl =
    docker
      (lit "login" ∷ lit "-u" ∷ lit "oauth2accesstoken" ∷ lit "--password-stdin" ∷ host_of pl ∷ [])

abbrev pub create_builder : List Text
create_builder = docker (
    lit "buildx"
    ∷ lit "create"
    ∷ lit "--name"
    ∷ lit "fidbuilder"
    ∷ lit "--driver"
    ∷ lit "docker-container"
    ∷ lit "--use"
    ∷ [])

abbrev pub use_builder : List Text
use_builder = docker (lit "buildx" ∷ lit "use" ∷ lit "fidbuilder" ∷ [])

unfoldable pub build_image : Machine → Place → List Text
build_image m pl = docker (
    lit "buildx"
    ∷ lit "build"
    ∷ lit "--builder"
    ∷ lit "fidbuilder"
    ∷ lit "--no-cache"
    ∷ lit "--build-arg"
    ∷ lit "SOURCE_DATE_EPOCH=1700000000"
    ∷ lit "--output"
    ∷ (lit "type=image,name="
        ++ (tagged pl ++ lit ",push=true,rewrite-timestamp=true,oci-mediatypes=true"))
    ∷ lit "--metadata-file"
    ∷ join_path (context m) (lit "meta.json")
    ∷ context m
    ∷ [])

-- The last part: the address of the machine, what is kept and what is printed.
unfoldable pub tell : Machine → Text → Json → Json → Exec Session (Unit {0})
tell m digest inst ip = lift (get inst (lit "status")) >>= λ status.
    (say (
        lit "\nCS VM fid-proxy-cs status="
        ++ (to_text m.floats status ++ (lit " ip=" ++ to_text m.floats ip)))
      >> say (lit "client pin_measurement (image_digest) = " ++ digest))

unfoldable pub finish : Machine → Place → Json → Json → Json → Exec Session (Unit {0})
unfolding save_state tell join_path
finish m pl digest inst ip =
    save_state m (join_path m.here (lit "cs_state.json")) (state_of (str (tagged pl)) digest ip)
    >> tell m (to_text m.floats digest) inst ip

unfoldable pub read_back : Machine → Place → Json → Json → Exec Session (Unit {0})
unfolding external_ip finish
read_back m pl digest inst = lift (external_ip inst) >>= finish m pl digest inst

-- `body`
abbrev pub body : Machine → Place → Json → Items → Json → Json → Json
body m pl digest tee_env cs_image enc_ip =
    vm_body pl.p pl.z cs_image (access_conf enc_ip) (metadata pl (to_text m.floats digest) tee_env)

unfoldable pub with_address : Machine → Place → Json → Items → Json → Json → Exec Session (Unit {0})
unfolding launch vm_body read_back
with_address m pl digest tee_env cs_image enc_ip =
    launch m pl.p pl.z (body m pl digest tee_env cs_image enc_ip) 20 >>= read_back m pl digest

unfoldable pub with_image : Machine → Place → Json → Items → Json → Exec Session (Unit {0})
unfolding reserved_address with_address
with_image m pl digest tee_env cs_image =
    reserved_address m pl.p pl.r >>= with_address m pl digest tee_env cs_image

-- The old machine is deleted, and the new one is launched.
unfoldable pub replace : Machine → Args → Place → Json → Items → Exec Session (Unit {0})
unfolding delete_old report_other image_link with_image
replace m a pl digest tee_env =
    delete_old m (instance_path pl.p pl.z) (lit "deleting existing fid-proxy-cs …") (pure tt) 30
      (report_other (lit "delete fid-proxy-cs: "))
    >> (image_link m (family a) >>= with_image m pl digest tee_env)

-- `tee_env`: the settings of the workload that are given, the upstream key first.
abbrev pub setting_of : Text → Text → Items → Items
setting_of k v rest = if same v [] then rest else cons (entry k (str v)) rest

abbrev pub tee_env_of : Text → Text → Items
tee_env_of up_key seed_hex =
    setting_of (lit "tee-env-FID_ANTHROPIC_KEY") up_key
      (setting_of (lit "tee-env-FID_IDENTITY_SEED") seed_hex nil)

unfoldable pub with_seed : Machine → Args → Place → Json → Text → Text → Exec Session (Unit {0})
unfolding replace same
with_seed m a pl digest up_key seed_hex =
    (if same seed_hex []
      then pure tt
      else say (lit "injecting identity seed via tee-env-FID_IDENTITY_SEED (not baked into image)"))
    >> replace m a pl digest (tee_env_of up_key seed_hex)

-- `except Exception`: the message ends where the exception would be printed.
abbrev pub or_warn : Result Text → Exec Session Text
or_warn (ok seed_hex) = pure seed_hex
or_warn (err e) = say (lit "WARNING: no FID_IDENTITY_SEED and cannot read keys.json: ") >> pure []

unfoldable pub seed_from_keys : Machine → Exec Session Text
unfolding read_seed join_path
seed_from_keys m s =
    let out = read_seed m (join_path (root m) (lit "config/keys.json")) s in or_warn out.0 out.1

abbrev pub choose_seed : Machine → Text → Exec Session Text
choose_seed m given = if same given [] then seed_from_keys m else pure given

abbrev pub key_line : Text → Text
key_line up_key =
    if same up_key []
    then lit "WARNING: FID_ANTHROPIC_KEY not set — upstream calls will fail."
    else lit "injecting upstream key via tee-env-FID_ANTHROPIC_KEY (not baked into image)"

unfoldable pub with_digest : Machine → Args → Place → Json → Exec Session (Unit {0})
unfolding seed_from_keys same with_seed
with_digest m a pl digest =
    say (lit "IMAGE_DIGEST = " ++ to_text m.floats digest)
    >> (say (key_line (environ_or m (lit "FID_ANTHROPIC_KEY") []))
        >> (choose_seed m (environ_or m (lit "FID_IDENTITY_SEED") [])
            >>= with_seed m a pl digest (environ_or m (lit "FID_ANTHROPIC_KEY") [])))

-- `s[-1500:]`
abbrev pub last_part : Text → Text
last_part s = drop (length s - 1500) s

unfoldable pub read_digest : Machine → Exec Session Json
unfolding load_json join_path
read_digest m = load_json m (join_path (context m) (lit "meta.json")) >>= λ meta.
    lift (get_or meta (lit "containerimage.digest") (str []))

unfoldable pub after_build : Machine → Args → Place → Ended → Exec Session (Unit {0})
unfolding read_digest with_digest
after_build m a pl build =
    if build.code == 0
    then read_digest m >>= with_digest m a pl
    else (say (lit "BUILDX FAILED:\n " ++ last_part build.stderr)
        >> lift (err (system_exit (lit "1"))))

-- The builder's commands are not checked.
unfoldable pub build_and_launch : Machine → Args → Place → Exec Session (Unit {0})
unfolding run_command build_image after_build
build_and_launch m a pl = run_command m create_builder none >>= λ _.
    (run_command m use_builder none >>= λ _.
    (run_command m (build_image m pl) none >>= after_build m a pl))

-- The token goes to the standard input of the login.
abbrev pub log_in_with : Machine → Place → Text → Exec Session (Unit {0})
log_in_with m pl tok = check_command m (login pl) (some (tok ++ 10 ∷ []))

unfoldable pub log_in : Machine → Place → Json → Exec Session (Unit {0})
unfolding check_command
log_in m pl tok = say (lit "+ " ++ joined (login pl)) >> (lift (as_text tok) >>= log_in_with m pl)

unfoldable pub push : Machine → Args → Place → Exec Session (Unit {0})
unfolding token log_in build_and_launch
push m a pl = (token m >>= log_in m pl) >> build_and_launch m a pl

abbrev pub repository_url : Place → Text
repository_url pl =
    lit "https://artifactregistry.googleapis.com/v1/projects/"
    ++ (pl.p ++ (lit "/locations/" ++ (pl.r ++ lit "/repositories?repositoryId=fidrouter")))

abbrev pub repository : Json
repository = obj (field (lit "format") (str (lit "DOCKER")) end)

abbrev pub repository_line : Text → Text → Text
repository_line message answer =
    lit "AR repo: "
    ++ (if is_infix (lit "ALREADY_EXISTS") answer then lit "exists" else lit "ERROR " ++ message)

unfoldable pub ensure_repository : Machine → Place → Exec Session (Unit {0})
unfolding is_infix
ensure_repository m pl =
    catch_gcp
      (api_post m (repository_url pl) repository >>= λ _. say (lit "created AR repo fidrouter"))
      (λ message _ answer. say (repository_line message answer))

-- The build context: the static binary, the Dockerfile and the public configuration.
unfoldable pub stage : Machine → Exec Session (Unit {0})
unfolding change check_command go_build join_path
stage m =
    emit (changed (lit "rmtree") (context m ∷ []))
    >> (change m (lit "makedirs") (context m ∷ [])
        >> (say (lit "+ " ++ joined (go_build m))
            >> (check_command m (go_build m) none
                >> (change m (lit "copy")
                      (join_path (join_path m.here (lit "cs")) (lit "Dockerfile") ∷ context m ∷ [])
                    >> change m (lit "copytree") (
                        join_path (root m) (lit "config")
                        ∷ join_path (context m) (lit "config")
                        ∷ lit "*.sealed.json"
                        ∷ lit "keys.json"
                        ∷ [])))))

unfoldable pub proceed : Machine → Args → Place → Exec Session (Unit {0})
unfolding stage ensure_repository push
proceed m a pl = stage m >> (ensure_repository m pl >> push m a pl)

abbrev pub plan_line : Args → Place → Text
plan_line a pl =
    lit "plan: build "
    ++ (tagged pl
        ++ (lit "; launch CS VM (c3-standard-4, TDX, image-family="
            ++ (family a ++ (lit ") in " ++ pl.z))))

abbrev pub dry_line : Text
dry_line = lit "DRY-RUN. Re-run with --yes. NOTE: needs roles/artifactregistry.admin on the SA."

unfoldable pub with_place : Machine → Args → Place → Exec Session (Unit {0})
unfolding proceed
with_place m a pl = say (plan_line a pl) >> (if a.confirmed then proceed m a pl else say dry_line)

-- `main()`
unfoldable pub provision : Machine → Args → Exec Session (Unit {0})
unfolding find_place with_place
provision m a = find_place m >>= with_place m a
