-- ===== src/Deploy/Launch.antt =====
-- What the three scripts of deploy/gcp that launch the enclave's machine have in common.
pub mod Laws
pub mod Script
pub mod Waits
pub mod Bodies
use fidrouter.Base.{
  ℕ, zero, suc, ◌-◌, Text, Bytes, lit, Bool, true, false, not, ◌&&◌, ◌||◌, Option, none, some, List,
  [], ◌∷◌, ◌++◌, Result, ok, err, Error, command_failed, ◌==◌, same, if◌then◌else◌, length,
}
use fidrouter.Text.Strip.{is_infix, lower}
use fidrouter.Json.{
  Json, null, bool, str, arr, obj, Items, nil, cons, Fields, end, field, Floats, item, get, get_or,
  truthy,
}
use fidrouter.Json.Convert.{to_text}
use fidrouter.Json.Loads.{loads_text}
use fidrouter.Exec.{Exec, pure, lift, ◌>>=◌, ◌>>◌}
use fidrouter.Deploy.Machine.{
  Event, printed, slept, ran, changed, saved, Ended, Machine, Session, added, emit, say, asks,
  catch_gcp,
}
use fidrouter.Deploy.Settings.{Place, place_of}
use fidrouter.Deploy.Account.{seed_of}
use fidrouter.Deploy.Gcp.{load_env, api_get, api_post, api_delete}

abbrev pub project_path : Text → Text → Text
project_path p rest = lit "/projects/" ++ (p ++ rest)

abbrev pub instances_path : Text → Text → Text
instances_path p z = project_path p (lit "/zones/" ++ (z ++ lit "/instances"))

abbrev pub instance_path : Text → Text → Text
instance_path p z = project_path p (lit "/zones/" ++ (z ++ lit "/instances/fid-proxy-cs"))

abbrev pub address_path : Text → Text → Text
address_path p r = project_path p (lit "/regions/" ++ (r ++ lit "/addresses/fid-proxy-ip"))

abbrev pub family_path : Text → Text
family_path fam = lit "/projects/confidential-space-images/global/images/family/" ++ fam

-- A command, whatever its exit status, and one whose failure is an exception.
unfoldable pub run_command : Machine → List Text → Option Text → Exec Session Ended
run_command m argv input s = (m.run s.events argv, added s (ran argv input))

abbrev pub succeeded : Ended → Result (Unit {0})
succeeded e = if e.code == 0 then ok tt else err command_failed

unfoldable pub check_command : Machine → List Text → Option Text → Exec Session (Unit {0})
unfolding run_command
check_command m argv input = run_command m argv input >>= λ e. lift (succeeded e)

-- A change of the file system.
unfoldable pub change : Machine → Text → List Text → Exec Session (Unit {0})
change m op args s = (m.change s.events op args, added s (changed op args))

-- `json.load(open(path))`
unfoldable pub load_json : Machine → Text → Exec Session Json
load_json m path =
    asks (λ events. m.read_file events path) >>= λ body. lift (loads_text m.floats body)

-- One poll: the machine is gone when asking for it raises `GcpError`.
unfoldable pub is_gone : Machine → Text → Exec Session Bool
is_gone m path = catch_gcp (api_get m path >>= λ _. pure false) (λ _ _ _. pure true)

-- `break`, or the rest of the loop
abbrev pub stop_or_go :
    Exec Session (Unit {0}) → Exec Session (Unit {0}) → Bool → Exec Session (Unit {0})
stop_or_go stop go true = stop
stop_or_go stop go false = go

-- `for _ in range(n)`: sleep, ask, and stop when the machine is gone.
unfoldable pub wait_gone : Machine → Text → Exec Session (Unit {0}) → ℕ → Exec Session (Unit {0})
unfolding is_gone
wait_gone m path on_gone zero = pure tt
wait_gone m path on_gone (suc n) =
    emit (slept 4) >> (is_gone m path >>= stop_or_go on_gone (wait_gone m path on_gone n))

-- The machine that is there is deleted first; what to say of an error is the caller's.
unfoldable pub delete_old :
    Machine
    → Text
    → Text
    → Exec Session (Unit {0})
    → ℕ
    → (Text → ℕ → Text → Exec Session (Unit {0}))
    → Exec Session (Unit {0})
unfolding wait_gone
delete_old m path line on_gone n report =
    catch_gcp (api_delete m path >>= λ _. (say line >> wait_gone m path on_gone n)) report

-- `"not found" not in (e.body or "").lower() and "notFound" not in (e.body or "")`
abbrev pub is_other : Text → Bool
is_other body =
    not (is_infix (lit "not found") (lower body)) && not (is_infix (lit "notFound") body)

unfoldable pub report_other : Text → Text → ℕ → Text → Exec Session (Unit {0})
unfolding is_infix
report_other line message code body = if is_other body then say (line ++ message) else pure tt

unfoldable pub image_link : Machine → Text → Exec Session Json
image_link m fam = api_get m (family_path fam) >>= λ j. lift (item j (lit "selfLink"))

-- The reserved address, if there is one.
unfoldable pub reserved_address : Machine → Text → Text → Exec Session Json
reserved_address m p r =
    catch_gcp (api_get m (address_path p r) >>= λ j. lift (item j (lit "address")))
      (λ _ _ _. pure null)

abbrev pub access_fields : Fields → Json
access_fields more = obj (
    field (lit "type") (str (lit "ONE_TO_ONE_NAT"))
      (field (lit "name") (str (lit "External NAT")) more))

-- `accessconf`, with the reserved address
abbrev pub access_conf : Json → Json
access_conf enc_ip = access_fields (if truthy enc_ip then field (lit "natIP") enc_ip end else end)

-- `{"key": …, "value": …}`
abbrev pub entry : Text → Json → Json
entry k v = obj (field (lit "key") (str k) (field (lit "value") v end))

abbrev pub one : Json → Json
one j = arr (cons j nil)

-- The body that creates the machine: Confidential Space on TDX, with the given metadata.
unfoldable pub vm_body : Text → Text → Json → Json → Items → Json
vm_body p z cs_image access items = obj (
    field (lit "name") (str (lit "fid-proxy-cs")) (
      field (lit "machineType")
        (str
          (lit "projects/" ++ (p ++ (lit "/zones/" ++ (z ++ lit "/machineTypes/c3-standard-4")))))
        (field (lit "confidentialInstanceConfig")
          (obj (field (lit "confidentialInstanceType") (str (lit "TDX")) end))
          (field (lit "shieldedInstanceConfig")
            (obj (field (lit "enableSecureBoot") (bool true) end))
            (field (lit "scheduling")
              (obj (field (lit "onHostMaintenance") (str (lit "TERMINATE")) end))
              (field (lit "disks")
                (one (
                  obj (
                    field (lit "boot") (bool true) (
                      field (lit "autoDelete") (bool true) (
                        field (lit "initializeParams")
                          (obj (
                            field (lit "sourceImage") cs_image
                              (field (lit "diskSizeGb") (str (lit "20")) end)))
                          end)))))
                (field (lit "networkInterfaces")
                  (one (
                    obj (
                      field (lit "network")
                        (str (lit "projects/" ++ (p ++ lit "/global/networks/fid-router-net")))
                        (field (lit "accessConfigs") (one access) end))))
                  (field (lit "metadata") (obj (field (lit "items") (arr items) end)) (
                    field (lit "serviceAccounts")
                      (one (
                        obj (
                          field (lit "email") (str (lit "default")) (
                            field (lit "scopes")
                              (one (str (lit "https://www.googleapis.com/auth/cloud-platform")))
                              end))))
                      end)))))))))

-- `json.dump({"image": …, "digest": …, "ip": …}, open(path, "w"), indent=2)`
unfoldable pub save_state : Machine → Text → Json → Exec Session (Unit {0})
save_state m path j s = (m.change s.events (lit "open") (path ∷ []), added s (saved path j))

abbrev pub state_of : Json → Json → Json → Json
state_of image digest ip =
    obj (field (lit "image") image (field (lit "digest") digest (field (lit "ip") ip end)))

-- The machine is created, and after a while it is asked for.
unfoldable pub created : Machine → Text → Text → ℕ → Json → Exec Session Json
created m p z pause name =
    say (lit "launch op: " ++ to_text m.floats name)
    >> (emit (slept pause) >> api_get m (instance_path p z))

unfoldable pub launch : Machine → Text → Text → Json → ℕ → Exec Session Json
unfolding created
launch m p z body pause =
    (api_post m (instances_path p z) body >>= λ op. lift (get op (lit "name")))
    >>= created m p z pause

unfoldable pub find_place : Machine → Exec Session Place
unfolding load_env place_of
find_place m = load_env m >>= λ env. lift (place_of env)

-- The identity seed of the keys in a file
unfoldable pub read_seed : Machine → Text → Exec Session Text
unfolding load_json
read_seed m path = load_json m path >>= λ k. lift (seed_of k)

abbrev pub host_of : Place → Text
host_of pl = pl.r ++ lit "-docker.pkg.dev"

-- `f"{ar_host}/{p}/fidrouter/fid-proxy"`
abbrev pub image_name : Place → Text
image_name pl = host_of pl ++ b'/' ∷ (pl.p ++ lit "/fidrouter/fid-proxy")

-- The image by its digest, and what every launch says of it.
abbrev pub metadata : Place → Text → Items → Items
metadata pl digest tee_env =
    cons (entry (lit "tee-image-reference") (str (image_name pl ++ b'@' ∷ digest)))
      (cons (entry (lit "tee-restart-policy") (str (lit "Never"))) tee_env)
