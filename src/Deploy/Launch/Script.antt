-- ===== src/Deploy/Launch/Script.antt =====
-- The events that a launching script is made of, over the bodies that it posts and the commands that
-- it runs.
use fidrouter.Base.{
  ℕ, zero, suc, Text, Bytes, lit, Bool, true, false, Option, none, some, List, ◌++◌, ok, ◌≡◌,
  if-elim,
}
use fidrouter.Json.{Json, null, item, get}
use fidrouter.Json.Convert.{to_text}
use fidrouter.Exec.{Exec, pure, lift, ◌>>=◌, ◌>>◌}
use fidrouter.Deploy.Settings.{place_of}
use fidrouter.Deploy.Account.{seed_of, exchange_call, encode_body, api_call}
use fidrouter.Deploy.Machine.{
  Event, called, printed, slept, ran, changed, saved, Machine, Session, emit, say,
}
use fidrouter.Deploy.Gcp.{load_env, api, api_get, api_post, api_delete}
use fidrouter.Deploy.Launch
use fidrouter.Deploy.Gcp
use fidrouter.Deploy.Launch.{
  run_command, check_command, find_place, read_seed, stop_or_go, is_gone, wait_gone, delete_old,
  is_other, report_other, image_link, reserved_address, launch, instance_path, instances_path,
  family_path, address_path, load_json,
}
use fidrouter.Deploy.Launch.Laws.{
  Only, emit-Only, bind-Only, then-Only, lift-Only, catch_gcp-Only, api-Only, token-Only,
  run_command-Only, check_command-Only, load_env-Only, load_json-Only,
}

-- Requests that only read or delete, the request for a token, and posts of the allowed bodies; printed
-- lines, sleeps, changes of files; and the allowed commands.
pub data ScriptEvent (m : Machine) (Created : Text → Json → Type 0)
    (Command : List Text → Option Text → Type 0) : Event → Type 0 where
  traded : (uri signed : Text) → ScriptEvent m Created Command (called (exchange_call uri signed))
  read :
      (url : Text) (payload : Option Bytes) (bearer : Text)
      → ScriptEvent m Created Command (called (api_call (lit "GET") url payload bearer))
  deleted :
      (url : Text) (payload : Option Bytes) (bearer : Text)
      → ScriptEvent m Created Command (called (api_call (lit "DELETE") url payload bearer))
  created :
      (url : Text) (body : Json) (payload : Option Bytes) (bearer : Text)
      → Created url body
      → encode_body m (some body) ≡ ok payload
      → ScriptEvent m Created Command (called (api_call (lit "POST") url payload bearer))
  said : (line : Text) → ScriptEvent m Created Command (printed line)
  waited : (n : ℕ) → ScriptEvent m Created Command (slept n)
  wrote : (op : Text) (args : List Text) → ScriptEvent m Created Command (changed op args)
  kept : (path : Text) (j : Json) → ScriptEvent m Created Command (saved path j)
  commanded :
      (argv : List Text) (input : Option Text)
      → Command argv input
      → ScriptEvent m Created Command (ran argv input)

module _ (m : Machine) (Created : Text → Json → Type 0)
    (Command : List Text → Option Text → Type 0) where
  abbrev pub Script : Event → Type 0
  Script e = ScriptEvent m Created Command e

  pub say-Only : (line : Text) → Only Script (say line)
  say-Only line = emit-Only Script (printed line) (said line)

  pub sleep-Only : (n : ℕ) → Only Script (emit (slept n))
  sleep-Only n = emit-Only Script (slept n) (waited n)

  pub get_token-Only : Only Script (Gcp.token m)
  get_token-Only = token-Only m Script traded

  pub run-Only :
      (argv : List Text) (input : Option Text)
      → Command argv input
      → Only Script (run_command m argv input)
  run-Only argv input c = run_command-Only Script m argv input (commanded argv input c)

  pub check-Only :
      (argv : List Text) (input : Option Text)
      → Command argv input
      → Only Script (check_command m argv input)
  check-Only argv input c = check_command-Only Script m argv input (commanded argv input c)

  pub get-Only : (url : Text) → Only Script (api_get m url)
  get-Only url =
      api-Only m Script traded (lit "GET") url none λ payload bearer _. read url payload bearer

  pub post-Only : (url : Text) (body : Json) → Created url body → Only Script (api_post m url body)
  post-Only url body c =
      api-Only m Script traded (lit "POST") url (some body)
        λ payload bearer e. created url body payload bearer c e

  delete-Only : (url : Text) → Only Script (api_delete m url)
  delete-Only url =
      api-Only m Script traded (lit "DELETE") url none
        λ payload bearer _. deleted url payload bearer

  is_gone-Only : (path : Text) → Only Script (is_gone m path)
  unfolding is_gone
  is_gone-Only path =
      catch_gcp-Only Script (api_get m path >>= λ _. pure false) (λ _ _ _. pure true)
        (bind-Only Script (api_get m path) (λ _. pure false) (get-Only path) λ _ s t h. h)
        λ _ _ _ s t h. h

  stop_or_go-Only :
      (stop go : Exec Session (Unit {0}))
      → Only Script stop
      → Only Script go
      → (gone : Bool) → Only Script (stop_or_go stop go gone)
  stop_or_go-Only stop go hs hg true = hs
  stop_or_go-Only stop go hs hg false = hg

  wait_gone-Only :
      (path : Text) (on_gone : Exec Session (Unit {0})) (n : ℕ)
      → Only Script on_gone
      → Only Script (wait_gone m path on_gone n)
  unfolding wait_gone
  wait_gone-Only path on_gone zero h = λ s t x. x
  wait_gone-Only path on_gone (suc n) h =
      let go = wait_gone m path on_gone n in
      then-Only Script (emit (slept 4)) (is_gone m path >>= stop_or_go on_gone go) (sleep-Only 4) (
        bind-Only Script (is_gone m path) (stop_or_go on_gone go) (is_gone-Only path)
          (stop_or_go-Only on_gone go h (wait_gone-Only path on_gone n h)))

  pub delete_old-Only :
      (path line : Text) (on_gone : Exec Session (Unit {0})) (n : ℕ)
      (report : Text → ℕ → Text → Exec Session (Unit {0}))
      → Only Script on_gone
      → ((message : Text) (code : ℕ) (body : Text) → Only Script (report message code body))
      → Only Script (delete_old m path line on_gone n report)
  unfolding delete_old
  delete_old-Only path line on_gone n report h hr =
      let wait = wait_gone m path on_gone n in
      catch_gcp-Only Script (api_delete m path >>= λ _. (say line >> wait)) report
        (bind-Only Script (api_delete m path) (λ _. (say line >> wait)) (delete-Only path)
          λ _. then-Only Script (say line) wait (say-Only line) (wait_gone-Only path on_gone n h))
        hr

  pub report_other-Only :
      (line message : Text) (code : ℕ) (body : Text)
      → Only Script (report_other line message code body)
  unfolding report_other
  report_other-Only line message code body =
      if-elim (Only Script) (is_other body) (say (line ++ message)) (pure tt)
        (say-Only (line ++ message)) λ s t h. h

  pub image_link-Only : (fam : Text) → Only Script (image_link m fam)
  unfolding image_link
  image_link-Only fam =
      bind-Only Script (api_get m (family_path fam)) (λ j. lift (item j (lit "selfLink")))
        (get-Only (family_path fam)) λ j. lift-Only Script (item j (lit "selfLink"))

  pub reserved_address-Only : (p r : Text) → Only Script (reserved_address m p r)
  unfolding reserved_address
  reserved_address-Only p r =
      catch_gcp-Only Script (api_get m (address_path p r) >>= λ j. lift (item j (lit "address")))
        (λ _ _ _. pure null)
        (bind-Only Script (api_get m (address_path p r)) (λ j. lift (item j (lit "address")))
          (get-Only (address_path p r)) λ j. lift-Only Script (item j (lit "address")))
        λ _ _ _ s t h. h

  created-Only :
      (p z : Text) (pause : ℕ) (name : Json) → Only Script (Launch.created m p z pause name)
  unfolding Launch.created
  created-Only p z pause name =
      let line = lit "launch op: " ++ to_text m.floats name in
      let look = api_get m (instance_path p z) in
      then-Only Script (say line) (emit (slept pause) >> look) (say-Only line) (
        then-Only Script (emit (slept pause)) look (sleep-Only pause)
          (get-Only (instance_path p z)))

  pub launch-Only :
      (p z : Text) (body : Json) (pause : ℕ)
      → Created (instances_path p z) body
      → Only Script (launch m p z body pause)
  unfolding launch
  launch-Only p z body pause c =
      let post = api_post m (instances_path p z) body in
      let name = λ (op : Json). lift {S = Session} (get op (lit "name")) in
      bind-Only Script (post >>= name) (Launch.created m p z pause)
        (bind-Only Script post name (post-Only (instances_path p z) body c)
          λ op. lift-Only Script (get op (lit "name")))
        (created-Only p z pause)

  pub find_place-Only : Only Script (find_place m)
  unfolding find_place
  find_place-Only =
      bind-Only Script (load_env m) (λ env. lift (place_of env)) (load_env-Only m Script)
        λ env. lift-Only Script (place_of env)

  pub read_seed-Only : (path : Text) → Only Script (read_seed m path)
  unfolding read_seed
  read_seed-Only path =
      bind-Only Script (load_json m path) (λ k. lift (seed_of k)) (load_json-Only Script m path)
        λ k. lift-Only Script (seed_of k)
