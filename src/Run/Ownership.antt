-- ===== src/Run/Ownership.antt =====
-- What `run` holds while it runs, and that it lets go of it: an automaton over its events.
use tunstrap.Common.{
  ℕ, String, ◌≡◌, refl, ap, ◌∙◌, ◌⊎◌, inl, inr, Bool, true, false, Option, none, some, List, [],
  ◌∷◌, ◌++◌, Result, ok, err,
}
use tunstrap.Errors.{Raised, tunstrap_error, usage_error, exception, base_exception}
use tunstrap.Environment.{EnvError, Exported, build_child_env}
use tunstrap.Common.Dict.{Dict}
use tunstrap.Run.Arguments.{Flags}
use tunstrap.Run.Child.{
  Event, made_root, spawned, child_started, torn_down, discarded, reported, Launch, os_error,
  raises, started, Surroundings, Ending, launch_child, with_env, with_output, run_child,
  under_handlers, tear_down, supervise_child,
}
use tunstrap.Run.Command.{finish}

-- What is held: nothing yet, a directory that was made here, a worker (with such a directory or not),
-- a worker and a child that was started; or everything was let go.
pub data Held : Type 0 where
  nothing rooted over : Held
  live serving : Bool → Held

-- What may be done next.
unfoldable pub next : Held → Event → Option Held
next held reported = some held
next nothing (made_root root) = some rooted
next nothing spawned = some (live false)
next rooted spawned = some (live true)
next rooted (discarded root) = some over
next (live own) (child_started cmd env) = some (serving own)
next (live own) (torn_down t) = some over
next (live true) (discarded root) = some over
next (serving own) (torn_down t) = some over
next _ _ = none

abbrev pub step : Option Held → Event → Option Held
unfolding next
step none e = none
step (some held) e = next held e

unfoldable pub follow : Option Held → List Event → Option Held
follow o [] = o
follow o (e ∷ es) = follow (step o e) es

pub follow-append :
    (o : Option Held) (es more : List Event) → follow o (es ++ more) ≡ follow (follow o es) more
unfolding follow
follow-append o [] more = refl
follow-append o (e ∷ es) more = follow-append (step o e) es more

-- A worker is held, and perhaps a child was started.
abbrev pub IsAttended : Bool → List Event → Type 0
IsAttended own es =
    (follow (some (live own)) es ≡ some (live own))
    ⊎ (follow (some (live own)) es ≡ some (serving own))

launch_child-IsAttended :
    (own : Bool) (cmd : List String) (env : Dict String) (l : Launch)
    → IsAttended own (launch_child cmd env l).events
unfolding launch_child follow next
launch_child-IsAttended own cmd env os_error = inl refl
launch_child-IsAttended own cmd env (raises e) = inl refl
launch_child-IsAttended own cmd env (started end) = inr refl

with_env-IsAttended :
    (own : Bool) (cmd : List String) (l : Launch) (env : Result EnvError (Dict String))
    → IsAttended own (with_env cmd l env).events
unfolding with_env follow
with_env-IsAttended own cmd l (err e) = inl refl
with_env-IsAttended own cmd l (ok env) = launch_child-IsAttended own cmd env l

module _ (own : Bool) (f : Flags) (cmd : List String) (w : Surroundings) where
  with_output-IsAttended :
      (written : Option Raised) (out : Result Raised Exported)
      → IsAttended own (with_output f cmd w written out).events
  unfolding with_output follow
  with_output-IsAttended written (err e) = inl refl
  with_output-IsAttended (some e) (ok out) = inl refl
  with_output-IsAttended none (ok out) =
      with_env-IsAttended own cmd w.launch
        (build_child_env out f.output_var f.input_env f.suppress_kubeconfig w.inherited)

  under_handlers-IsAttended :
      (saving : Option Raised) → IsAttended own (under_handlers f cmd w saving).events
  unfolding under_handlers run_child follow
  under_handlers-IsAttended none = with_output-IsAttended w.written w.validated
  under_handlers-IsAttended (some e) = inl refl

tear_down-over :
    (own : Bool) (es : List Event) (e : Ending) (grace : ℕ)
    → IsAttended own es
    → follow (some (live own)) (es ++ tear_down e grace own ∷ []) ≡ some over
unfolding follow next tear_down
tear_down-over own es e grace (inl h) =
    follow-append (some (live own)) es _ ∙ ap (λ o. follow o (tear_down e grace own ∷ [])) h
tear_down-over own es e grace (inr h) =
    follow-append (some (live own)) es _ ∙ ap (λ o. follow o (tear_down e grace own ∷ [])) h

-- Under supervision the session is torn down, and that is the last of it.
pub supervise_child-over :
    (own : Bool) (f : Flags) (cmd : List String) (w : Surroundings) (e : Ending) (grace : ℕ)
    → follow (some (live own)) (supervise_child f cmd w e grace own).events ≡ some over
unfolding supervise_child
supervise_child-over own f cmd w e grace =
    tear_down-over own (under_handlers f cmd w w.saving).events e grace
      (under_handlers-IsAttended own f cmd w w.saving)

reported-over :
    (o : Option Held) (before events : List Event)
    → follow (follow o before) events ≡ some over
    → follow o (before ++ (events ++ reported ∷ [])) ≡ some over
unfolding follow next
reported-over o before events h =
    follow-append o before (events ++ reported ∷ [])
    ∙ follow-append (follow o before) events (reported ∷ [])
    ∙ ap (λ k. follow k (reported ∷ [])) h

pub finish-over :
    (o : Option Held) (before events : List Event) (outcome : Result Raised ℕ)
    → follow (follow o before) events ≡ some over
    → follow o (finish before events outcome).events ≡ some over
unfolding finish
finish-over o before events (ok code) h = follow-append o before events ∙ h
finish-over o before events (err base_exception) h = follow-append o before events ∙ h
finish-over o before events (err (tunstrap_error e)) h = reported-over o before events h
finish-over o before events (err usage_error) h = reported-over o before events h
finish-over o before events (err (exception name)) h = reported-over o before events h
