-- ===== src/Tests/Machines.antt =====
-- A machine that the deployment scripts run on, whose cloud answers at once.
use fidrouter.Base.{
  ◌+◌, ◌≤◌, lit, true, false, none, some, [], ◌∷◌, List, ok, same, ◌≡◌, refl, if◌then◌else◌,
}
use fidrouter.Text.Utf8.{encode}
use fidrouter.Text.Decimal.{show_int}
use fidrouter.Text.Strip.{strip}
use fidrouter.Json.{Json, str, obj, end, field, get_or, item, as_text, truthy}
use fidrouter.Json.Dump.{dumps}
use fidrouter.Json.Loads.{loads}
use fidrouter.Exec.{Returns, pure}
use fidrouter.Json.Numbers.{to_int}
use fidrouter.Deploy.Account.{absolute}
use fidrouter.Deploy.Settings.{Assignments, is_name_char, setting, read_env}
use fidrouter.Deploy.Settings.Laws.{written, read_env-written}
use fidrouter.Deploy.Machine.{Answer, answered, HttpCall, Event, Machine, Session}
use fidrouter.Deploy.Gcp
use fidrouter.Deploy.Gcp.{api}
use fidrouter.Deploy.Gcp.Laws.{Taken, token-Taken}
use fidrouter.Deploy.Gcp.Calls.{Added, Sends, api-Sends, Answered, api-Answered}
use fidrouter.Deploy.Launch.{wait_gone}
use fidrouter.Deploy.Launch.Laws.{Extends}
use fidrouter.Deploy.Launch.Waits.{sleeps, wait_gone_bounded}
use fidrouter.Deploy.Ratls.Laws as RatlsLaws
use fidrouter.Deploy.Provision.{Args, provision}
use fidrouter.Deploy.Provision.DryRun.{IsPrinted, provision_dry}
use fidrouter.Tests.Toy.{floats}

-- The address of tokens answers with a token, and every other with a link.
abbrev cloud : List Event → HttpCall → Answer
cloud events call =
    if same call.url (lit "t")
    then answered (lit "{\"access_token\": \"tok\"}")
    else answered (lit "{\"selfLink\": \"img\"}")

abbrev machine : Machine
machine = record {
  answer = cloud;
  run = λ events argv. ok (record { code = 0; stderr = [] });
  change = λ events op args. ok tt;
  exists = λ path. false;
  read_file = λ events path. ok (lit "{}");
  environ = λ k. none;
  now = λ events. 0;
  here = lit "d";
  floats = floats;
  sign_pem = λ key body. ok (1 ∷ []);
}

abbrev settings : Assignments
settings = (lit "GCP_PROJECT_ID", lit "p") ∷ (lit "GCP_ZONE", lit "eu-west1-b # near") ∷ []

abbrev account : Json
account = obj (
    field (lit "client_email") (str (lit "e"))
      (field (lit "token_uri") (str (lit "t")) (field (lit "private_key") (str (lit "k")) end)))

abbrev session : Session
session = record { settings = some settings; account = some account; cached = none; events = [] }

abbrev small : Assignments
small = (lit "A", lit "x # y") ∷ (lit "B1", lit "2") ∷ []

read_env-written_example : read_env (written small) ≡ small
unfolding is_name_char strip setting same
read_env-written_example =
    read_env-written small
      (
        (
          ((λ h. cc h), (refl, tt)),
          ((λ h. cc h), refl, (refl, (refl, (refl, (refl, (refl, tt)))))),
        ),
        ((((λ h. cc h), (refl, (refl, tt))), ((λ h. cc h), refl, (refl, tt))), tt),
      )
      (refl, (refl, tt))

token_run : Returns (Gcp.token machine) session (str (lit "tok")) (Gcp.token machine session).1
unfolding Gcp.token get_or item encode dumps truthy show_int as_text loads to_int
token_run = refl

token-Taken_example : Taken machine session (Gcp.token machine session).1 (str (lit "tok"))
token-Taken_example =
    token-Taken machine session (Gcp.token machine session).1 (str (lit "tok")) token_run

api-Sends_example :
    Added session
      (Sends machine (lit "GET") (lit "/x") none)
      (api machine (lit "GET") (lit "/x") none session).1
api-Sends_example = api-Sends machine (lit "GET") (lit "/x") none session

abbrev link : Json
link = obj (field (lit "selfLink") (str (lit "img")) end)

api_run :
    Returns
      (api machine (lit "GET") (lit "/x") none)
      session
      link
      (api machine (lit "GET") (lit "/x") none session).1
unfolding api get_or item encode dumps truthy show_int as_text loads to_int absolute
api_run = refl

api-Answered_example :
    Answered machine
      (lit "GET")
      (lit "/x")
      none
      session
      (api machine (lit "GET") (lit "/x") none session).1
      link
api-Answered_example =
    api-Answered machine (lit "GET") (lit "/x") none session
      (api machine (lit "GET") (lit "/x") none session).1 link api_run

wait_gone_bounded_example :
    sleeps (wait_gone machine (lit "/x") (pure tt) 3 session).1.events ≤ sleeps session.events + 3
wait_gone_bounded_example = wait_gone_bounded machine (lit "/x") (pure tt) (λ s t h. h) 3 session

abbrev args : Args
args = record { confirmed = false; debug_image = true }

provision_dry_example : Extends IsPrinted session (provision machine args session).1
provision_dry_example = provision_dry machine args session refl

-- The loop stops at its bound on a machine that stays.
three_waits : sleeps (wait_gone machine (lit "/x") (pure tt) 3 session).1.events ≡ 3
unfolding sleeps wait_gone api get_or item encode dumps truthy show_int as_text loads to_int
    absolute
three_waits = refl
