-- ===== src/Lib.antt =====
-- tunstrap opens SSH tunnels from a short-lived command and leaves a daemon behind that keeps them
-- (tunstrap/). A `start` or `run` command spawns the worker, which takes the lock of its session
-- directory, opens a connection and the forwards of every node, hands out rewritten kubeconfigs and
-- then waits for a signal, an idle timeout or the loss of a tunnel. `stop`, and the end of `run`,
-- find the daemon by its identity file, stop it, and remove its data.
--
-- Which file models which part:
--   Activity       tunstrap/activity.py: ActivityTracker and the tracker of one connection. A hook
--                  of asyncssh is an event, and a run is a list of events.
--   Worker/Idle    tunstrap/_worker.py: _idle_watchdog. A round of its loop is an element of a
--                  schedule, which says how late the sleep ends and what happens meanwhile.
--   Worker/Supervise
--                  tunstrap/_worker.py: _supervise, _tunnel_loss_watchdog, _record_losses and
--                  _dispose_session; a run is the list of callbacks before the wait resumes.
--   Worker/Entry   tunstrap/_worker.py: main and _run, as the list of what a worker does.
--   Fetcher        tunstrap/fetcher.py: fetch_files, _fetch_one and _record_channel_failure.
--   Manager        tunstrap/manager.py: TunnelManager. Manager/Start is _start_one, with the answers of
--                  asyncssh, of the two fetchers and of the writes of materialised files to
--                  each step; Manager/Build is what start_all_and_build_output makes of the nodes,
--                  and stop_all.
--   Environment    tunstrap/cli.py: _build_child_env, _validate_output_var, _session_scalars;
--                  tunstrap/envrender.py: render_kube_env and the names of its variables.
--   Exports        tunstrap/envrender.py: format_exports and _shell_single_quote.
--   Tofu           tunstrap/tofu_proxy.py: main, and the parsing of the command line that it rests
--                  on. Replacing the process and running under a tunnel are values of Action.
--   Kube/Document  the parsed YAML that tunstrap/kube.py reads and mutates, with the operations on
--                  dicts and lists that it uses; Document/Finding and Document/Laws their laws.
--   Kube/Parse     tunstrap/kube.py: parse_kubeconfig and its sections.
--   Kube/Patch     tunstrap/kube.py: patch_view, rename_identities, _sweep_shared_refs.
--   Kube/Remote    tunstrap/kube.py: _fetch_one, _split_host_port, choose_tls_server_name,
--                  _resolve_tls.
--   Kube/Targets   tunstrap/kube.py: the loop of run_kube_targets.
--   Identity       tunstrap/identity.py: acquire_session_lock, verify_session.
--   Stop           tunstrap/session.py: stop_session and _has_exited.
--   Errors         tunstrap/exceptions.py: the hierarchy, _scrub and exit_code_for.
--   Daemon         tunstrap/daemon.py: Daemon/Reap is _reap_timed_out_worker, Daemon/Frame is
--                  _read_ipc_response, Daemon/Spawn is spawn_daemon.
--   CliInput       tunstrap/cli_input.py: parse_endpoint with _split_host_port and _parse_port,
--                  parse_named, connection_flags_present and the channels of build_start_schema.
--   Ssh            tunstrap/ssh.py: open_local_forwards and close_transport, as lists of calls.
--   Run            tunstrap/cli.py: Run/Arguments is what run checks before any side effect, Run/Child
--                  is _supervise_child, Run/Command is _run_command, which is composed of these and of
--                  Daemon, Environment and Lifecycle. What a run does is a list of acts.
--   Fdio           tunstrap/fdio.py: write_all.
--   Session        tunstrap/session.py: Session/Create is SessionDir.create and cleanup, with
--                  release_session_lock of tunstrap/identity.py; Session/Files is atomic_write.
--   Start          tunstrap/cli.py: start_command, _emit_start_result and the reports of a failure.
--   Lifecycle      tunstrap/cli_stop.py: stop_command; tunstrap/cli.py: _teardown_run; both rest on
--                  read_identity of tunstrap/session.py.
--   Lifecycle/Status
--                  tunstrap/cli_stop.py: status_command.
--   Schemas        tunstrap/schemas.py: _parse_host_port.
--   Common         names, tests, results, dictionaries and texts that the others share.
--   Examples       concrete runs of each part, with the results below applied to them.
--
-- The clock is an argument in milliseconds. System calls, asyncssh, the YAML and TLS libraries and
-- urlsplit answer from records or functions that the definitions take; what an exception of theirs
-- does is written out. Mutated Python objects become a document before and a document after, and an
-- object that the code holds on to is named by its position.
--
-- Fuel: the grace poll of stop_session has two rounds for each second of grace and one more, since
-- each round sleeps half a second; `decimal` has as many rounds as the number itself and one more.
-- `write_all` has a round for each byte. Every other loop is recursion on its input.
--
-- Not modelled: YAML aliases that make two places of a document one object; the texts of warnings
-- and exceptions beyond what the code decides on; an interrupt in the middle of a teardown or of a
-- start. The other validators of the schemas, the options of the command line and the JSON of the
-- output have no model here. A name in tunnel-data stands for what is under it, and a detail of
-- an error that is neither dict nor list for its text. The starts of the nodes are taken to their
-- ends, in the order of the schema, also when one of them raises. Texts on the command line are ASCII
-- where Python's int reads them.
pub mod Common
pub mod Errors
pub mod Activity
pub mod Worker
pub mod Fetcher
pub mod Manager
pub mod Fdio
pub mod Session
pub mod Daemon
pub mod CliInput
pub mod Ssh
pub mod Schemas
pub mod Run
pub mod Start
pub mod Environment
pub mod Exports
pub mod Tofu
pub mod Kube
pub mod Identity
pub mod Stop
pub mod Lifecycle
mod Examples
