-- ===== src/Run/Safety.antt =====
-- Every act of a run keeps to its promise.
use tunstrap.Common.{
  ℕ, String, ◌≡◌, ◌≢◌, refl, ap, ◌∙◌, inl, inr, Bool-cases, Bool, true, false, Option, none, some,
  List, [], ◌∷◌, ◌++◌, Result, ok, err, >>=-eq-ok, ◌=t=◌, All, All-append,
}
use tunstrap.Errors.{Raised, tunstrap_error, usage_error, exception, base_exception, is_handshake}
use tunstrap.Daemon.Frame.{Message}
use tunstrap.Daemon.Reap.{Process}
use tunstrap.Daemon.Spawn.{spawn_daemon}
use tunstrap.Run.Arguments.{
  Flags, Prepared, prepare, split_run_args, read_schema, require_command, without_separator,
  check_output_var,
}
use tunstrap.Run.Child.{Event, reported, under_handlers, supervise_child}
use tunstrap.Run.Command.{
  World, is_minted, minting, launching, mint_session_dir, discard_minted_root, fail_before_child,
  finish, on_message, on_spawn, spawn_window, when_prepared, run_command,
}
use tunstrap.Run.Promises.{Keeps, IsPrepared, IsMint, under_handlers-Keeps, tear_down-Keeps}

module _ (w : World) (f : Flags) where
  finish-Keeps :
      (before events : List Event) (outcome : Result Raised ℕ)
      → All (Keeps w f) before
      → All (Keeps w f) events
      → All (Keeps w f) (finish before events outcome).events
  unfolding finish Keeps
  finish-Keeps before events (ok code) h g = All-append (Keeps w f) before events h g
  finish-Keeps before events (err base_exception) h g = All-append (Keeps w f) before events h g
  finish-Keeps before events (err (tunstrap_error e)) h g =
      All-append (Keeps w f) before _ h (All-append (Keeps w f) events (reported ∷ []) g (tt, tt))
  finish-Keeps before events (err usage_error) h g =
      All-append (Keeps w f) before _ h (All-append (Keeps w f) events (reported ∷ []) g (tt, tt))
  finish-Keeps before events (err (exception name)) h g =
      All-append (Keeps w f) before _ h (All-append (Keeps w f) events (reported ∷ []) g (tt, tt))

  fail_before_child-Keeps :
      (e : Raised) (events : List Event)
      → All (Keeps w f) events
      → All (Keeps w f) (fail_before_child e events).events
  unfolding fail_before_child Keeps
  fail_before_child-Keeps (tunstrap_error e) events h =
      All-append (Keeps w f) events (reported ∷ []) h (tt, tt)
  fail_before_child-Keeps usage_error events h = h
  fail_before_child-Keeps base_exception events h = h
  fail_before_child-Keeps (exception name) events h = h

  discarded-Keeps :
      (root : Option String) → IsMint w f root → All (Keeps w f) (discard_minted_root root)
  unfolding discard_minted_root Keeps
  discarded-Keeps none mint = tt
  discarded-Keeps (some root) mint = (mint, tt)

  begun-Keeps :
      (root : Option String) (worker : Option Process)
      → IsMint w f root
      → All (Keeps w f) (minting root ++ launching worker)
  unfolding Keeps
  begun-Keeps none none mint = tt
  begun-Keeps none (some p) mint = (tt, tt)
  begun-Keeps (some root) none mint = (mint, tt)
  begun-Keeps (some root) (some p) mint = (mint, (tt, tt))

  minted-IsMint :
      (dir : Option String) (made : Result Raised String) (path : String) (root : Option String)
      → f.session_dir ≡ dir
      → w.made ≡ made
      → mint_session_dir made dir ≡ ok (path, root)
      → IsMint w f root
  unfolding mint_session_dir
  minted-IsMint dir made path none supplied same h = tt
  minted-IsMint (some dir) made path (some root) supplied same h = cc
  minted-IsMint none (err e) path (some root) supplied same h = cc
  minted-IsMint none (ok there) path (some root) supplied same h = (supplied, cc)

module _ (w : World) (f : Flags) (p : Prepared) (prepared : IsPrepared w f p) (root : Option String)
    (mint : IsMint w f root) (before : List Event) (begun : All (Keeps w f) before) where
  on_message-Keeps :
      (success : Bool) (payload : Option String) (kind : String)
      → All (Keeps w f) (on_message w f p root before success payload kind).events
  unfolding on_message supervise_child Keeps
  on_message-Keeps success none kind =
      All-append (Keeps w f) before _ begun (tear_down-Keeps w f p prepared root mint, (tt, tt))
  on_message-Keeps false (some payload) kind =
      All-append (Keeps w f) before _ begun (
        All-append (Keeps w f) (discard_minted_root root) _ (discarded-Keeps w f root mint)
          (tt, tt))
  on_message-Keeps true (some payload) kind =
      let s = supervise_child f p.cmd w.surroundings w.ending p.grace (is_minted root) in
      finish-Keeps w f before s.events s.outcome begun (
        All-append (Keeps w f) (under_handlers f p.cmd w.surroundings w.surroundings.saving).events
          _ (under_handlers-Keeps w f p prepared w.surroundings.saving)
          (tear_down-Keeps w f p prepared root mint, tt))

  on_spawn-Keeps :
      (outcome : Result Raised Message)
      → All (Keeps w f) (on_spawn w f p root before outcome).events
  unfolding on_spawn
  on_spawn-Keeps (ok m) = on_message-Keeps (m.kind =t= "success") m.payload m.kind
  on_spawn-Keeps (err usage_error) = begun
  on_spawn-Keeps (err base_exception) = begun
  on_spawn-Keeps (err (exception name)) = begun
  on_spawn-Keeps (err (tunstrap_error e)) = elim (Bool-cases (is_handshake e.kind)) [
    | inl handshake ↦ rw handshake (
        fail_before_child-Keeps w f (tunstrap_error e) _
          (All-append (Keeps w f) before _ begun (tear_down-Keeps w f p prepared root mint, tt)))
    | inr other ↦ rw other (
        fail_before_child-Keeps w f (tunstrap_error e) _
          (All-append (Keeps w f) before _ begun (discarded-Keeps w f root mint)))
  ]

require_command-some : (words cmd : List String) → require_command words ≡ ok cmd → cmd ≢ []
unfolding require_command
require_command-some [] cmd h = cc
require_command-some (word ∷ words) cmd h = λ empty. cc

abbrev command_of : Result Raised (Option String × List String) → Result Raised (List String)
command_of (ok (connection, cmd)) = ok cmd
command_of (err e) = err e

abbrev prepared_command : Result Raised Prepared → List String
prepared_command (ok p) = p.cmd
prepared_command (err e) = []

split_run_args-some :
    (args : List String) (input_env connection : Option String) (cmd : List String)
    → split_run_args args input_env ≡ ok (connection, cmd)
    → cmd ≢ []
unfolding split_run_args
split_run_args-some args (some var) connection cmd h =
    let (words, required, same) = >>=-eq-ok (require_command (without_separator args)) _ h in
    require_command-some _ cmd (required ∙ ap command_of same)
split_run_args-some [] none connection cmd h = cc
split_run_args-some (first ∷ rest) none connection cmd h =
    let (words, required, same) = >>=-eq-ok (require_command (without_separator rest)) _ h in
    require_command-some _ cmd (required ∙ ap command_of same)

prepare-IsPrepared :
    (w : World) (f : Flags) (args : List String) (p : Prepared)
    → prepare w.channels w.matches f args ≡ ok p
    → IsPrepared w f p
unfolding prepare
prepare-IsPrepared w f args p h =
    let (words, split, h1) = >>=-eq-ok (split_run_args args f.input_env) _ h in
    let (read, was_read, h2) = >>=-eq-ok (read_schema w.channels f words.0 f.input_env) _ h1 in
    let (_, checked, h3) = >>=-eq-ok (check_output_var w.matches f.output_var f.input_env) _ h2 in
    (
      λ empty.
          split_run_args-some args f.input_env words.0 words.1 split
            (ap prepared_command h3 ∙ empty),
      checked,
    )

-- Everything that a run does, whatever the worker, the child and the teardown do: it makes and it
-- discards a directory only when none was supplied, and only the one that it made. Its child is
-- a command of at least one word, whose environment has no variable of the name that holds the
-- input, unless `run` sets a variable of this name itself. Its teardown removes the session's data
-- only if no identity was ever recorded or the recorded worker verified as not running or met its
-- end, and the directory itself only with the data and when none was supplied.
pub run_command_safe :
    (w : World) (f : Flags) (args : List String) → All (Keeps w f) (run_command w f args).events
unfolding run_command when_prepared spawn_window
run_command_safe w f args = prepared (prepare w.channels w.matches f args) refl
  where
    made :
        (p : Prepared) (r : Result Raised (String × Option String))
        → prepare w.channels w.matches f args ≡ ok p
        → mint_session_dir w.made f.session_dir ≡ r
        → All (Keeps w f) (spawn_window w f p r).events
    made p (err e) h g = tt
    made p (ok (path, root)) h g =
        let mint = minted-IsMint w f f.session_dir w.made path root refl refl g in
        let s =
          spawn_daemon w.decode p.schema.startup_timeout_seconds w.system p.schema.log_file
            (some path) in
        on_spawn-Keeps w f p (prepare-IsPrepared w f args p h) root mint
          (minting root ++ launching s.worker) (begun-Keeps w f root s.worker mint) s.outcome

    prepared :
        (r : Result Raised Prepared)
        → prepare w.channels w.matches f args ≡ r
        → All (Keeps w f) (when_prepared w f r).events
    prepared (err e) h = fail_before_child-Keeps w f e [] tt
    prepared (ok p) h = made p (mint_session_dir w.made f.session_dir) h refl
