-- ===== src/Run/Fates.antt =====
-- What is left behind a launched worker, and why.
use tunstrap.Common.{
  String, ◌≡◌, refl, sym, ap, ◌∙◌, ◌⊎◌, inl, inr, true, false, Option, none, some, ◌++◌, Result, ok,
  err, ◌=t=◌,
}
use mathlib.Core.Path.{subst}
use tunstrap.Errors.{Raised, TunstrapError, tunstrap_error, exception, is_handshake}
use tunstrap.Daemon.Frame.{Message}
use tunstrap.Daemon.Reap.{Process}
use tunstrap.Daemon.Spawn.{spawn_daemon, raises}
use tunstrap.Daemon.Recovery.{UndecodableFrame, IsLaunchFailure}
use tunstrap.Run.Arguments.{Flags, Prepared}
use tunstrap.Run.Command.{RunResult, escapes, World, is_minted, minting, launching, on_spawn}
use tunstrap.Run.Ownership.{Held, nothing, rooted, over, live, serving}
use tunstrap.Run.Releases.{
  Leads, launched-live, on_message-over, on_spawn-handshake, on_spawn-undecodable,
  on_spawn-exception,
}

-- Why a worker may be left to itself: its answer was of another kind than `success`, and its directory
-- was not made here; or its frame could not be decoded, or the schema not be sent.
abbrev pub IsLeft : World → Option String → Result Raised Message → RunResult → Type 0
IsLeft w root outcome r =
    ((root ≡ none) × ((m : Message) × (outcome ≡ ok m) × ((m.kind =t= "success") ≡ false)))
    ⊎ ((e : Raised) × (r.ending ≡ escapes e)
        × (UndecodableFrame e ⊎ ((name : String) × (w.system.sent ≡ raises name))))

-- What may be left at the end of a run.
abbrev pub Fate : World → Option String → Result Raised Message → RunResult → Held → Type 0
Fate w root outcome r nothing = Unit
Fate w root outcome r over = Unit
Fate w root outcome r rooted = (name : String) × (r.ending ≡ escapes (exception name))
Fate w root outcome r (live own) = IsLeft w root outcome r
Fate w root outcome r (serving own) = ⊥

abbrev pub HasFate : World → Option String → Result Raised Message → RunResult → Type 0
HasFate w root outcome r =
    (held : Held) × Leads (some nothing) r.events held × Fate w root outcome r held

module _ (w : World) (f : Flags) (p : Prepared) (root : Option String) where
  settled_message :
      (worker : Process) (m : Message)
      → HasFate w root (ok m) (on_spawn w f p root (minting root ++ launching (some worker)) (ok m))
  unfolding on_spawn
  settled_message worker m =
      elim (on_message-over w f p (minting root ++ launching (some worker)) root
        (m.kind =t= "success") m.payload m.kind (launched-live root worker)) [
          | inl done ↦ (over, done, tt)
          | inr (left, supplied, failed) ↦ (live false, left, inl (supplied, (m, refl, failed)))
        ]

  settled_handshake :
      (worker : Process) (e : TunstrapError)
      → is_handshake e.kind ≡ true
      → HasFate w root
          (err (tunstrap_error e))
          (on_spawn w f p root (minting root ++ launching (some worker)) (err (tunstrap_error e)))
  settled_handshake worker e kind = (
    over,
    on_spawn-handshake w f p (minting root ++ launching (some worker)) root e kind
        (launched-live root worker),
    tt,
  )

  settled_escape :
      (worker : Process) (e : Raised)
      → on_spawn w f p root (minting root ++ launching (some worker)) (err e)
        ≡ record { ending = escapes e; events = minting root ++ launching (some worker) }
      → UndecodableFrame e ⊎ ((name : String) × (w.system.sent ≡ raises name))
      → HasFate w root
          (err e)
          (on_spawn w f p root (minting root ++ launching (some worker)) (err e))
  settled_escape worker e h why =
      subst (HasFate w root (err e)) (sym h)
        (live (is_minted root), launched-live root worker, inr (e, refl, why))

  pub on_spawn-launched :
      (worker : Process) (path : String) (outcome : Result Raised Message)
      → ((m : Message) × (outcome ≡ ok m))
        ⊎ ((e : Raised) × (outcome ≡ err e) × IsLaunchFailure w.system.sent path worker.pid e)
      → HasFate w root outcome
          (on_spawn w f p root (minting root ++ launching (some worker)) outcome)
  on_spawn-launched worker path outcome how = subst_outcome how
    where
      of : Result Raised Message → Type 0
      of o = HasFate w root o (on_spawn w f p root (minting root ++ launching (some worker)) o)

      subst_outcome :
          ((m : Message) × (outcome ≡ ok m))
            ⊎ ((e : Raised) × (outcome ≡ err e) × IsLaunchFailure w.system.sent path worker.pid e)
          → of outcome
      subst_outcome (inl (m, h)) = subst of (sym h) (settled_message worker m)
      subst_outcome (inr (e, h, inl (t, same, kind, _, _))) =
          subst of (sym (h ∙ ap err same)) (settled_handshake worker t kind)
      subst_outcome (inr (e, h, inr (inl u))) = subst of (sym h) (
          settled_escape worker e
            (on_spawn-undecodable w f p (minting root ++ launching (some worker)) root e u) (inl u))
      subst_outcome (inr (e, h, inr (inr (name, sent, same)))) = subst of (sym (h ∙ ap err same)) (
          settled_escape worker (exception name)
            (on_spawn-exception w f p (minting root ++ launching (some worker)) root name)
            (inr (name, sent)))

-- What the worker of a run answers.
abbrev pub answer : World → Prepared → String → Result Raised Message
answer w p path =
    (spawn_daemon w.decode p.schema.startup_timeout_seconds w.system p.schema.log_file
      (some path)).outcome
