-- ===== src/Run/Settled.antt =====
-- How a run ends, whatever the worker, the child and the teardown do.
use tunstrap.Common.{
  String, ◌≡◌, refl, sym, ap, ◌∙◌, inl, inr, Option, none, some, List, [], ◌++◌, Result, ok, err,
}
use mathlib.Core.Path.{subst}
use tunstrap.Errors.{Raised, tunstrap_error, usage_error, exception, base_exception}
use tunstrap.Daemon.Frame.{Message}
use tunstrap.Daemon.Spawn.{Spawned, spawn_daemon}
use tunstrap.Daemon.Seam.{IsSeam, spawn_daemon-IsSeam}
use tunstrap.Run.Arguments.{Flags, Prepared, prepare}
use tunstrap.Run.Command.{
  RunResult, escapes, World, minting, launching, mint_session_dir, fail_before_child, on_spawn,
  spawn_window, when_prepared, run_command,
}
use tunstrap.Run.Ownership.{Held, nothing, rooted, over, live, serving, next, follow}
use tunstrap.Run.Releases.{Leads}
use tunstrap.Run.Fates.{IsLeft, HasFate, on_spawn-launched, answer}

-- What may be left at the end, in terms of the arguments.
abbrev pub RunFate : World → Flags → List String → Held → Type 0
RunFate w f args nothing = Unit
RunFate w f args over = Unit
RunFate w f args rooted =
    (name : String) × ((run_command w f args).ending ≡ escapes (exception name))
RunFate w f args (live own) =
    (p : Prepared) × (path : String) × (root : Option String) × (prepare w.channels w.matches f args
      ≡ ok p)
    × (mint_session_dir w.made f.session_dir ≡ ok (path, root))
    × IsLeft w root (answer w p path) (run_command w f args)
RunFate w f args (serving own) = ⊥

unlaunched :
    (w : World) (f : Flags) (p : Prepared) (root : Option String) (outcome : Result Raised Message)
    (name : String)
    → outcome ≡ err (exception name)
    → HasFate w root outcome (on_spawn w f p root (minting root ++ launching none) outcome)
unfolding on_spawn follow next
unlaunched w f p none outcome name h =
    subst (λ o. HasFate w none o (on_spawn w f p none (minting none ++ launching none) o)) (sym h)
      (nothing, refl, tt)
unlaunched w f p (some root) outcome name h =
    subst
      (λ o.
        HasFate w (some root) o
          (on_spawn w f p (some root) (minting (some root) ++ launching none) o))
      (sym h) (rooted, refl, (name, refl))

spawn_window-HasFate :
    (w : World) (f : Flags) (p : Prepared) (path : String) (root : Option String)
    → HasFate w root (answer w p path) (spawn_window w f p (ok (path, root)))
unfolding spawn_window
spawn_window-HasFate w f p path root =
    go
      (spawn_daemon w.decode p.schema.startup_timeout_seconds w.system p.schema.log_file
        (some path))
      (spawn_daemon-IsSeam w.decode p.schema.startup_timeout_seconds w.system p.schema.log_file
        (some path))
  where
    go :
        (s : Spawned)
        → IsSeam w.system (some path) s
        → HasFate w root s.outcome
            (on_spawn w f p root (minting root ++ launching s.worker) s.outcome)
    go s (inl (gone, (name, failed), _)) =
        subst
          (λ worker.
            HasFate w root s.outcome
              (on_spawn w f p root (minting root ++ launching worker) s.outcome))
          (sym gone) (unlaunched w f p root s.outcome name failed)
    go s (inr (worker, dir, there, _, _, _, how)) =
        subst
          (λ worker.
            HasFate w root s.outcome
              (on_spawn w f p root (minting root ++ launching worker) s.outcome))
          (sym there) (on_spawn-launched w f p root worker dir s.outcome how)

-- What each state asks of the whole run follows from what it asks behind the spawn.
as_run :
    (w : World) (f : Flags) (args : List String) (p : Prepared) (path : String)
    (root : Option String)
    → prepare w.channels w.matches f args ≡ ok p
    → mint_session_dir w.made f.session_dir ≡ ok (path, root)
    → HasFate w root (answer w p path) (run_command w f args)
    → (held : Held) × Leads (some nothing) (run_command w f args).events held
      × RunFate w f args held
as_run w f args p path root h g (nothing, leads, fate) = (nothing, leads, tt)
as_run w f args p path root h g (over, leads, fate) = (over, leads, tt)
as_run w f args p path root h g (rooted, leads, fate) = (rooted, leads, fate)
as_run w f args p path root h g (live own, leads, fate) =
    (live own, leads, (p, path, root, h, g, fate))
as_run w f args p path root h g (serving own, leads, fate) = (serving own, leads, fate)

run_command_spawns :
    (w : World) (f : Flags) (args : List String) (p : Prepared)
    (r : Result Raised (String × Option String))
    → prepare w.channels w.matches f args ≡ ok p
    → mint_session_dir w.made f.session_dir ≡ r
    → run_command w f args ≡ spawn_window w f p r
unfolding run_command when_prepared
run_command_spawns w f args p r h g = ap (when_prepared w f) h ∙ ap (spawn_window w f p) g

fail_before_child-empty :
    (e : Raised) → Leads (some nothing) (fail_before_child e []).events nothing
unfolding fail_before_child follow next
fail_before_child-empty (tunstrap_error e) = refl
fail_before_child-empty usage_error = refl
fail_before_child-empty (exception name) = refl
fail_before_child-empty base_exception = refl

-- Whatever its arguments are and whatever the worker, the child and the teardown do, a run acts in
-- order: it makes a directory at most once and first, starts one worker, starts a child only with a
-- worker, and, once it holds a worker, ends with one teardown, behind the child, or with the removal
-- of the directory that it made; behind either it only reports. It never ends with a child whose
-- session was not torn down. A directory that it made stays without a worker only if an exception
-- that is no error of the tool leaves the command. A worker stays only if it answered that it had
-- failed and the directory was not made by the run, or if its frame could not be decoded, or if the
-- schema could not be sent.
pub run_command_settles :
    (w : World) (f : Flags) (args : List String)
    → (held : Held) × Leads (some nothing) (run_command w f args).events held
      × RunFate w f args held
unfolding run_command when_prepared spawn_window follow
run_command_settles w f args = prepared (prepare w.channels w.matches f args) refl
  where
    ended_early :
        (r : RunResult)
        → run_command w f args ≡ r
        → Leads (some nothing) r.events nothing
        → (held : Held) × Leads (some nothing) (run_command w f args).events held
          × RunFate w f args held
    ended_early r h leads =
        (nothing, ap (λ (k : RunResult). follow (some nothing) k.events) h ∙ leads, tt)

    made :
        (p : Prepared) (r : Result Raised (String × Option String))
        → prepare w.channels w.matches f args ≡ ok p
        → mint_session_dir w.made f.session_dir ≡ r
        → (held : Held) × Leads (some nothing) (run_command w f args).events held
          × RunFate w f args held
    made p (err e) h g =
        ended_early (spawn_window w f p (err e)) (run_command_spawns w f args p (err e) h g) refl
    made p (ok (path, root)) h g = as_run w f args p path root h g (
        subst (HasFate w root (answer w p path))
          (sym (run_command_spawns w f args p (ok (path, root)) h g))
          (spawn_window-HasFate w f p path root))

    prepared :
        (r : Result Raised Prepared)
        → prepare w.channels w.matches f args ≡ r
        → (held : Held) × Leads (some nothing) (run_command w f args).events held
          × RunFate w f args held
    prepared (err e) h =
        ended_early (fail_before_child e []) (ap (when_prepared w f) h) (fail_before_child-empty e)
    prepared (ok p) h = made p (mint_session_dir w.made f.session_dir) h refl
