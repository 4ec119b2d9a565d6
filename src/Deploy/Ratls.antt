-- ===== src/Deploy/Ratls.antt =====
-- deploy/gcp/ratls_relaunch.py: the machine is recreated on a new image, with RA-TLS.
pub mod Laws
use fidrouter.Base.{
  ℕ, Text, lit, Bool, true, false, List, [], ◌∷◌, ◌++◌, Result, ok, err, system_exit, drop, same,
  ◌==◌, if◌then◌else◌,
}
use fidrouter.Text.Strip.{strip, rstrip, starts_with}
use fidrouter.Json.{Json, str, Items, nil, cons, end, get, truthy}
use fidrouter.Json.Convert.{to_text}
use fidrouter.Exec.{Exec, pure, lift, ◌>>=◌, ◌>>◌}
use fidrouter.Deploy.Settings.{Place, file_lines}
use fidrouter.Deploy.Account.{external_ip}
use fidrouter.Deploy.Machine.{Machine, Session, say, asks, join_path}
use fidrouter.Deploy.Launch.{
  find_place, read_seed, delete_old, report_other, image_link, reserved_address, launch, save_state,
  state_of, access_conf, vm_body, metadata, entry, image_name, instance_path,
}

abbrev pub new_digest : Text
new_digest = lit "sha256:8d306d528fe5cd4e1b2da6a58cdfff2840705f452420707545c931d7948b4456"

-- `s.strip(c)`
unfoldable pub strip_char : ℕ → Text → Text
unfolding rstrip
strip_char c [] = []
strip_char c (d ∷ s) = let rest = strip_char c s in if d == c then rest else rstrip c (d ∷ s)

-- The value of the first line that sets the upstream key; the empty text where none does.
unfoldable pub upstream_key : List Text → Text
unfolding starts_with strip strip_char
upstream_key [] = []
upstream_key (line ∷ lines) =
    let rest = upstream_key lines in
    if starts_with line (lit "ANTHROPIC_API_KEY=")
    then strip_char 39 (strip_char 34 (strip (drop 18 line)))
    else rest

abbrev pub required : Text → Result Text
required key =
    if same key [] then err (system_exit (lit "ANTHROPIC_API_KEY not found in .env")) else ok key

abbrev pub root : Machine → Text
root m = join_path m.here (lit "../..")

unfoldable pub read_upstream_key : Machine → Exec Session Text
unfolding upstream_key file_lines join_path same
read_upstream_key m =
    asks (λ events. m.read_file events (join_path (root m) (lit ".env"))) >>= λ body.
    lift (required (upstream_key (file_lines body)))

abbrev pub tee_env : Text → Text → Items
tee_env seed_hex anthropic =
    cons (entry (lit "tee-env-FID_IDENTITY_SEED") (str seed_hex))
      (cons (entry (lit "tee-env-FID_ANTHROPIC_KEY") (str anthropic)) nil)

-- `body`
abbrev pub body : Place → Text → Text → Json → Json → Json
body pl seed_hex anthropic cs_image enc_ip =
    vm_body pl.p pl.z cs_image (access_conf enc_ip)
      (metadata pl new_digest (tee_env seed_hex anthropic))

unfoldable pub tell : Machine → Json → Json → Exec Session (Unit {0})
tell m inst ip = lift (get inst (lit "status")) >>= λ status.
    (say (
        lit "CS VM fid-proxy-cs status="
        ++ (to_text m.floats status ++ (lit " ip=" ++ to_text m.floats ip)))
      >> say (lit "pin_measurement (new) = " ++ new_digest))

unfoldable pub finish : Machine → Place → Json → Json → Exec Session (Unit {0})
unfolding save_state tell join_path
finish m pl inst ip =
    save_state m (join_path m.here (lit "cs_state.json"))
      (state_of (str (image_name pl ++ lit ":deleg2")) (str new_digest) ip)
    >> tell m inst ip

unfoldable pub read_back : Machine → Place → Json → Exec Session (Unit {0})
unfolding external_ip finish
read_back m pl inst = lift (external_ip inst) >>= finish m pl inst

unfoldable pub with_address : Machine → Place → Text → Text → Json → Json → Exec Session (Unit {0})
unfolding launch vm_body read_back
with_address m pl seed_hex anthropic cs_image enc_ip =
    (if truthy enc_ip then say (lit "pinning static IP " ++ to_text m.floats enc_ip) else pure tt)
    >> (launch m pl.p pl.z (body pl seed_hex anthropic cs_image enc_ip) 20 >>= read_back m pl)

unfoldable pub with_image : Machine → Place → Text → Text → Json → Exec Session (Unit {0})
unfolding reserved_address with_address
with_image m pl seed_hex anthropic cs_image =
    reserved_address m pl.p pl.r >>= with_address m pl seed_hex anthropic cs_image

unfoldable pub with_keys : Machine → Place → Text → Text → Exec Session (Unit {0})
unfolding delete_old report_other image_link with_image
with_keys m pl seed_hex anthropic =
    say (lit "tee-env keys: ['tee-env-FID_IDENTITY_SEED', 'tee-env-FID_ANTHROPIC_KEY']")
    >> (delete_old m (instance_path pl.p pl.z) (lit "deleting existing fid-proxy-cs …")
          (say (lit "  deleted.")) 40 (report_other (lit "delete: "))
        >> (image_link m (lit "confidential-space") >>= with_image m pl seed_hex anthropic))

unfoldable pub with_seed : Machine → Place → Text → Exec Session (Unit {0})
unfolding read_upstream_key with_keys
with_seed m pl seed_hex = read_upstream_key m >>= with_keys m pl seed_hex

unfoldable pub with_place : Machine → Place → Exec Session (Unit {0})
unfolding read_seed with_seed join_path
with_place m pl = read_seed m (join_path (root m) (lit "config/keys.json")) >>= with_seed m pl

-- The script, from its first statement on.
unfoldable pub cutover : Machine → Exec Session (Unit {0})
unfolding find_place with_place
cutover m = find_place m >>= with_place m
