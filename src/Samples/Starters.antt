-- ===== src/Samples/Starters.antt =====
-- How a service of the samples becomes a daemon.
use kb_pm.Prelude.{ℕ, ◌≡◌, ◌++◌, []}
use kb_pm.Server.Daemon.{init_daemon}
use kb_pm.Server.Daemon.SetUp.{daemon_events, Ends, init_daemon-Ends}
use kb_pm.Samples.Machines.{boot_env}

init_daemon-Ends_example :
    Ends (λ log'. (session : ℕ) × (log' ≡ [] ++ daemon_events session)) (init_daemon boot_env [])
init_daemon-Ends_example = init_daemon-Ends boot_env []
