-- ===== src/Deploy/Ratls/Laws.antt =====
-- What a run of ratls_relaunch.py may post, run and change.
use fidrouter.Base.{Text, lit, List, Option}
use fidrouter.Json.{Json, nil, cons}
use fidrouter.Deploy.Settings.{Place}
use fidrouter.Deploy.Machine.{Event, Machine, say, join_path}
use fidrouter.Deploy.Launch.{find_place, read_seed}
use fidrouter.Deploy.Launch.Bodies.{given, Launches}
use fidrouter.Deploy.Launch.Laws.{Only, Came}
use fidrouter.Deploy.Launch.Script.{ScriptEvent, say-Only}
use fidrouter.Deploy.Ratls.{read_upstream_key}

-- The body that may be posted: it creates the machine at the image of the new digest, with the identity
-- seed of the keys and the upstream key as its only settings, at the place that the settings name.
abbrev pub Created : Machine → Text → Json → Type 0
Created m url j =
    (pl : Place) × Came (find_place m) pl
    × (seed_hex : Text) × Came
        (read_seed m (join_path (join_path m.here (lit "../..")) (lit "config/keys.json"))) seed_hex
    × (anthropic : Text) × Came (read_upstream_key m) anthropic
    × Launches pl (lit "sha256:8d306d528fe5cd4e1b2da6a58cdfff2840705f452420707545c931d7948b4456")
        (cons (given (lit "tee-env-FID_IDENTITY_SEED") seed_hex)
          (cons (given (lit "tee-env-FID_ANTHROPIC_KEY") anthropic) nil))
        url j

abbrev pub NoCommand : List Text → Option Text → Type 0
NoCommand argv input = ⊥

module _ (m : Machine) where
  abbrev pub Ours : Event → Type 0
  Ours e = ScriptEvent m (Created m) NoCommand e

  abbrev say-Ours : (line : Text) → Only Ours (say line)
  say-Ours line = say-Only m (Created m) NoCommand line
