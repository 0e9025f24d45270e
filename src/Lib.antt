-- ===== src/Lib.antt =====
-- relops-bootstrap: the orchestrator that erases, enrolls, provisions and holds the Mac minis of the
-- release-engineering fleet (orchestrator/orchestrator).
--
-- The program's parts. `workflow.py` holds the steps (quarantine, drain, wipe, wait for the
-- re-enrollment, mint, escrow, preflight, OS update, the waits, the grant, the registration watch,
-- the addition to the group), the two runs that order them, `reprovision` and `provision`, and the
-- checks of the fleet's SimpleMDM groups. The steps call three clients: `clients/ssh.py` for the
-- host, `clients/taskcluster.py` for the worker, `clients/simplemdm.py` for the device.
-- `hostnames.py` and `role_map.py` check and map names, `config.py` holds the settings, and `batch.py`
-- runs one action over a list of hosts, each in a child process. `runner.py` claims jobs of Hangar's
-- queue, runs each as a child process and reports its output and its end. `tart_health_agent.py`
-- probes the Tart hosts over ssh. The broker (broker/app) is a service of its own: it gives a host the
-- secret of its role, by the certificate that the load balancer passes on.
--
-- The files.
--   Prelude            numbers, lists and texts; a text is a list of code points (Texts: cuts and
--                      lower case; Decimal: numbers as text)
--   Settings           config.py: `Settings` and its defaults
--   Hostnames          hostnames.py and role_map.py: `validate_short`, `validate_fqdn`,
--                      `role_for_hostname`
--   Effects            the calls that leave the process (Calls), the monad of the steps (Actions), the
--                      wait loops (Poll), and three logics for actions: what they keep (Keeps), that
--                      they end (Ends), what holds after them (Gives)
--   Clients            taskcluster.py, simplemdm.py and ssh.py, a function for each of their
--                      functions; SimpleMdm/Pages has the listings
--   Workflow           workflow.py: Context (`resolve`, `resolve_offline`, `candidate_pools`), Hold
--                      (quarantine, drain, registration watch), Token (mint, escrow), Erase (wipe,
--                      wait for the re-enrollment), Gates (preflight, OS update, waits), Capture
--                      (the screen recording grant), Group (the addition to the bootstrap group),
--                      Peers and Parity (`step_group_parity`), Apps (`step_pkg_audit`,
--                      `step_pkg_attach`), Runs (`reprovision`, `provision`)
--   Batch              batch.py: Hosts (`read_host_file`), Commands (`_child_cmd` and the budgets),
--                      Run (`_run_one`, `run_batch`, `_add_to_group_then_watch`)
--   Traces             the monad of the runner and of the health agent (Actions), over any type of
--                      events, and its logic (Logic)
--   Runner             runner.py: Calls (Hangar and the child), Jobs (`_job_cmd`), Api (`_claim`,
--                      `_report`, `_complete`), Execute (`_run_job`, `_run_job_guarded`), Serve
--                      (`_serve` as a machine, whose steps are in Serving), Setup (the
--                      configuration, the headers, the client that is made anew for new certificates)
--   Broker             broker/app: Limiter (replay_cache.py), Identity (auth.py), Serve (`get_secret`
--                      of main.py, secrets.py)
--   Health             tart_health_agent.py: Parsers (`_etime_s`, `_kv`, `_api_base`), Collect (`_ssh`,
--                      `_guest` and the guest's facts), Slots (`collect_host`)
--   Tests              a world with one host, a queue with a job, a broker with a secret, a Tart
--                      host, and instances of the theorems in them
-- The other files below these hold proofs, and are named for what they prove.
--
-- How the code corresponds. An action takes the world and the history of the calls so far and gives
-- a result, a value or a failure, with the longer history; a call that was made stays in the history
-- when the action fails. The world gives each answer as a function of the history, so it stands for
-- any behaviour of the hosts and services, changes and races between two calls included. An
-- exception is a failure; its message is represented by the place where it is raised. Where the code
-- assigns to a field of the context, the step returns the changed context. JSON is taken decoded, by
-- the fields that are read; a device that the context does not have is asked for under a path that
-- gives a 404. Numbers are naturals: clocks and durations are in whole seconds.
--
-- Loops and fuel. A wait loop runs until a deadline on the clock; `poll_for` gives it one round for
-- each second of its wait and one more, which is enough where the clock does not go back and the
-- loop's pause is not 0: each round but the last sleeps for at least a second. `out_of_fuel` is the
-- model's own failure, and the termination results say that it does not come up. The other loops
-- are over lists or over a fixed number of attempts (5 for `_complete`). A listing of SimpleMDM is read
-- for at most `page_fuel` pages, a number of the world: more pages than items are never needed. The
-- digits of a number are written with one unit of fuel more than the number. `_serve` runs on as long
-- as its process does: it is a relation between a state and the next.
--
-- Parameters. The taskcluster package, httpx, subprocess (ssh, expect, the child processes), the clock
-- and the resolution of secrets are fields of `World`, of the runner's and the health agent's
-- worlds, or the argument `Child` of the batch. Of the clock two documented facts are assumed where
-- a theorem says so (`IsClock`): it does not go back, and a sleep takes at least its time. The
-- broker's clock and tokens are floats: they stand as their bits, and the arithmetic is a parameter.
-- Hangar's answers, Secret Manager, base64, the certificate parsers, `unquote`, the parse of openssl's
-- dates and Taskcluster's list of workers are parameters of the parts that use them.
--
-- Not modelled: what is printed; ssh's argument lists and identity files; the contents of the scripts
-- that are sent to a host; the case pairs of `str.lower` beyond ASCII; in config.py the refresh
-- rate, a float, and the path of the role map, which nothing reads; in batch.py the interrupt from the
-- keyboard, the prewarmed secrets, the report, and failures to write the directories or the roster;
-- of the steps `check` and `step_validate`, which reads a refresh rate as a float; of the health
-- agent the sweep with its upload, and what `int` does with more than 4300 digits. The builder
-- upgrade, tart_host.py, the screen and SBOM agents, cli.py, secrets.py, the operator's display, the
-- broker's logging and the main functions are left out: they call the modelled code, print, or are
-- programs of their own.
pub mod Prelude
pub mod Hostnames
pub mod Settings
pub mod Effects
pub mod Clients
pub mod Workflow
pub mod Batch
pub mod Traces
pub mod Runner
pub mod Broker
pub mod Health
mod Tests
