-- ===== src/Deploy/Machine.antt =====
-- What a script runs on and what it does there, in its order. What gcp.py keeps in its three globals is
-- explicit state.
use fidrouter.Base.{
  ℕ, Text, Bytes, List, [], ◌∷◌, ◌++◌, Option, none, some, Error, Result, ok, err, gcp_error, ℤ,
  Bool,
}
use fidrouter.Json.{Json, Floats}
use fidrouter.Exec.{Exec, pure, lift}
use fidrouter.Deploy.Settings.{Assignments}

-- A request with its method, and its body if it has one.
pub record HttpCall : Type 0 where
  pub method : Text
  pub url : Text
  pub headers : List (Text × Text)
  pub payload : Option Bytes

-- What a script does to the world: a request, a printed line, a sleep, a command with what it reads on
-- its standard input, a change of the file system.
pub data Event : Type 0 where
  called : HttpCall → Event
  printed : Text → Event
  slept : ℕ → Event
  ran : List Text → Option Text → Event
  changed : Text → List Text → Event
  saved : Text → Json → Event

-- What comes of a request: an answer, an HTTP status past 399 with a body, or none at all.
pub data Answer : Type 0 where
  answered : Bytes → Answer
  status : ℕ → Bytes → Answer
  lost : Answer

-- How a command ended.
pub record Ended : Type 0 where
  pub code : ℕ
  pub stderr : Text

-- The machine that the scripts run on. What it answers depends on all that was done before.
pub record Machine : Type 0 where
  pub answer : List Event → HttpCall → Answer
  pub run : List Event → List Text → Result Ended
  pub change : List Event → Text → List Text → Result (Unit {0})
  pub exists : Text → Bool
  pub read_file : List Event → Text → Result Text
  pub environ : Text → Option Text
  pub now : List Event → ℕ
  -- the directory of the scripts
  pub here : Text
  pub floats : Floats
  -- `load_pem_private_key(pem, None).sign(body, PKCS1v15(), SHA256())`
  pub sign_pem : Bytes → Bytes → Result Bytes

-- `_ENV`, `_SA`, `_TOKEN` with its expiry, and the events so far.
pub record Session : Type 0 where
  pub settings : Option Assignments
  pub account : Option Json
  pub cached : Option (Json × ℤ)
  pub events : List Event

abbrev pub added : Session → Event → Session
added s e = record s { events = s.events ++ e ∷ [] }

abbrev pub emit : Event → Exec Session (Unit {0})
emit e s = (ok tt, added s e)

abbrev pub say : Text → Exec Session (Unit {0})
say line = emit (printed line)

unfoldable pub send : Machine → HttpCall → Exec Session Answer
send m call s = (ok (m.answer s.events call), added s (called call))

abbrev pub gcp_parts : Error → Option (Text × ℕ × Text)
gcp_parts (gcp_error message code body) = some (message, code, body)
gcp_parts e = none

abbrev pub handle_parts :
    {A : Type 0}
    → Option (Text × ℕ × Text)
    → Error
    → (Text → ℕ → Text → Exec Session A)
    → Exec Session A
handle_parts none e h = lift (err e)
handle_parts (some (message, code, body)) e h = h message code body

abbrev pub handle : {A : Type 0} → Result A → (Text → ℕ → Text → Exec Session A) → Exec Session A
handle (ok a) h = pure a
handle (err e) h = handle_parts (gcp_parts e) e h

-- `except GcpError`: what was done before the exception stays done.
abbrev pub catch_gcp :
    {A : Type 0} → Exec Session A → (Text → ℕ → Text → Exec Session A) → Exec Session A
catch_gcp run h s = handle (run s).0 h (run s).1

-- `os.path.join` of a directory and a relative path
unfoldable pub join_path : Text → Text → Text
join_path [] b = b
join_path (c ∷ a) b = (c ∷ a) ++ b'/' ∷ b

-- A step that may fail by what was done before.
abbrev pub asks : {A : Type 0} → (List Event → Result A) → Exec Session A
asks f s = (f s.events, s)

abbrev pub keep_env : Assignments → Exec Session Assignments
keep_env env s = (ok env, record s { settings = some env })

abbrev pub keep_account : Json → Exec Session Json
keep_account sa s = (ok sa, record s { account = some sa })

abbrev pub keep_token : Json × ℤ → Exec Session Json
keep_token grant s = (ok grant.0, record s { cached = some grant })
