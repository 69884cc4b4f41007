-- ===== src/Daemon/Reaping.antt =====
-- What the parent signals when the handshake times out, and what it may say of the worker.
use tunstrap.Common.{◌≡◌, ◌≢◌, ◌⊎◌, Bool, true, false, List, [], ◌∷◌, is_positive, arith}
use tunstrap.Daemon.Reap.{
  WorkerSignal, terminate, kill, exited, expired, Process, kill_timed_out_worker,
  reap_timed_out_worker,
}

-- Something showed the end of the worker: a poll or a wait.
abbrev pub WasSeenEnded : Process → Type 0
WasSeenEnded p =
    (p.ended ≡ true)
    ⊎ ((p.on_terminate ≡ exited)
        ⊎ ((p.ended_then ≡ true)
            ⊎ ((p.ended_before_kill ≡ true) ⊎ ((p.on_kill ≡ exited) ⊎ (p.ended_at_last ≡ true)))))

abbrev pub was_killed : List WorkerSignal → Bool
was_killed (terminate ∷ kill ∷ []) = true
was_killed _ = false

-- The parent signals only a worker with a positive pid that had not ended. It sends SIGTERM first
-- and SIGKILL only when the wait behind that expired, and it calls the worker reaped only if a poll
-- or a wait showed its end.
pub reap_timed_out_worker_lem :
    (p : Process)
    → ((reap_timed_out_worker p).signals ≢ [] → (is_positive p.pid ≡ true) × (p.ended ≡ false))
      × (((reap_timed_out_worker p).signals ≡ [])
          ⊎ (((reap_timed_out_worker p).signals ≡ terminate ∷ [])
              ⊎ (((reap_timed_out_worker p).signals ≡ terminate ∷ kill ∷ [])
                  × (p.on_terminate ≡ expired))))
      × ((reap_timed_out_worker p).reaped ≡ true → WasSeenEnded p)
unfolding reap_timed_out_worker kill_timed_out_worker
reap_timed_out_worker_lem p = ground arith
