-- ===== src/Start/Recovered.antt =====
-- A daemon that `start` leaves behind can be found.
use tunstrap.Common.{String, ◌≡◌, ◌⊎◌, false, Option, none, [], ◌∷◌, Result, ok, err, ◌=t=◌}
use tunstrap.Errors.{Raised, base_exception}
use tunstrap.Daemon.Frame.{Message}
use tunstrap.Daemon.Spawn.{raises}
use tunstrap.Daemon.Recovery.{UndecodableFrame}
use tunstrap.Run.Command.{exit, escapes}
use tunstrap.Start.{code_of, worker_error, result, StartResult, start_recovery_handles, World}

-- A notice names the directory that a daemon can be stopped by.
abbrev pub IsNamed : String → StartResult → Type 0
IsNamed dir r =
    (minted : Option String) × (r.notices ≡ record { session_dir = dir; minted = minted } ∷ [])

-- What follows a message: all is well, or the worker's answer is no success and goes out as an error
-- with its exit code, or a notice, or an interrupt; or the message has no usable handle, and no
-- directory was supplied.
abbrev pub IsTold : World → Option String → Message → StartResult → Type 0
IsTold w supplied m r =
    ((r.ending ≡ exit 0) × (r.output ≡ result))
    ⊎ ((((m.kind =t= "success") ≡ false)
          × (r.ending ≡ exit (code_of m.kind))
          × ((payload : String) × (r.output ≡ worker_error payload)))
        ⊎ (((dir : String) × IsNamed dir r)
            ⊎ ((r.ending ≡ escapes base_exception)
                ⊎ ((start_recovery_handles w.fields m ≡ none) × (supplied ≡ none)))))

-- What follows a worker that was launched in a directory.
abbrev pub IsFound : World → Option String → String → Result Raised Message → StartResult → Type 0
IsFound w supplied root outcome r =
    ((m : Message) × (outcome ≡ ok m) × IsTold w supplied m r)
    ⊎ (IsNamed root r
        ⊎ ((e : Raised) × (outcome ≡ err e)
            × (UndecodableFrame e ⊎ ((name : String) × (w.system.sent ≡ raises name)))))
