-- ===== src/Deploy/Provision/Runs.antt =====
-- The steps of a provisioning run, and what each of them may do.
use fidrouter.Json.{Json}
use fidrouter.Exec.{Exec}
use fidrouter.Deploy.Gcp
use fidrouter.Deploy.Machine.{Machine}
