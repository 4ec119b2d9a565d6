-- ===== src/Deploy/Launch/Bodies.antt =====
-- What a body that creates the machine says, key by key, for the scripts that post one.
use fidrouter.Base.{Text, lit, true, ◌∷◌, ◌++◌, ok, ◌≡◌, refl}
use fidrouter.Json.{Json, bool, str, arr, obj, Items, cons, end, field, item}
use fidrouter.Deploy.Settings.{Place}
use fidrouter.Deploy.Launch.{access_conf, metadata, vm_body}

abbrev pub given : Text → Text → Json
given k v = obj (field (lit "key") (str k) (field (lit "value") (str v) end))

-- A TDX machine with secure boot, whose metadata are the image by the digest, the restart policy
-- and the settings, and nothing more.
pub record Launches (pl : Place) (digest : Text) (settings : Items) (url : Text) (j : Json)
    : Type 0 where
  pub url_eq : url ≡ lit "/projects/" ++ (pl.p ++ (lit "/zones/" ++ (pl.z ++ lit "/instances")))
  pub confidential_eq :
      item j (lit "confidentialInstanceConfig")
      ≡ ok (obj (field (lit "confidentialInstanceType") (str (lit "TDX")) end))
  pub shielded_eq :
      item j (lit "shieldedInstanceConfig")
      ≡ ok (obj (field (lit "enableSecureBoot") (bool true) end))
  pub metadata_eq :
      item j (lit "metadata")
      ≡ ok (
          obj (
            field
              (lit "items")
              (arr (
                cons
                  (given (lit "tee-image-reference") (
                    (pl.r ++ lit "-docker.pkg.dev")
                    ++ (b'/' ∷ (pl.p ++ lit "/fidrouter/fid-proxy"))
                    ++ (b'@' ∷ digest)))
                  (cons (given (lit "tee-restart-policy") (lit "Never")) settings)))
              end))

pub vm_body-Launches :
    (pl : Place) (digest : Text) (settings : Items) (cs_image enc_ip : Json)
    → Launches pl digest settings
        (lit "/projects/" ++ (pl.p ++ (lit "/zones/" ++ (pl.z ++ lit "/instances"))))
        (vm_body pl.p pl.z cs_image (access_conf enc_ip) (metadata pl digest settings))
unfolding vm_body item
vm_body-Launches pl digest settings cs_image enc_ip = record {
  url_eq = refl;
  confidential_eq = refl;
  shielded_eq = refl;
  metadata_eq = refl;
}
