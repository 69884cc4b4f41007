-- ===== src/Run/Releases.antt =====
-- What follows a launched worker, step by step.
use tunstrap.Common.{
  ℕ, String, ◌≡◌, refl, ap, ◌∙◌, ◌⊎◌, inl, inr, Bool, true, false, Option, none, some, List, [],
  ◌∷◌, ◌++◌, err,
}
use tunstrap.Errors.{Raised, TunstrapError, tunstrap_error, exception, is_handshake}
use tunstrap.Daemon.Reap.{Process}
use tunstrap.Daemon.Recovery.{UndecodableFrame}
use tunstrap.Run.Arguments.{Flags, Prepared}
use tunstrap.Run.Child.{Event, reported, Ending, tear_down, supervise_child}
use tunstrap.Run.Command.{
  escapes, World, is_minted, minting, launching, discard_minted_root, fail_before_child, on_message,
  on_spawn,
}
use tunstrap.Run.Ownership.{
  Held, nothing, over, live, next, follow, follow-append, supervise_child-over, finish-over,
}

-- The list of events leads from one state to another.
abbrev pub Leads : Option Held → List Event → Held → Type 0
Leads from events to = follow from events ≡ some to

end_with :
    (from : Option Held) {mid to : Held} (before after : List Event)
    → Leads from before mid
    → Leads (some mid) after to
    → Leads from (before ++ after) to
end_with from before after h g = follow-append from before after ∙ ap (λ o. follow o after) h ∙ g

pub launched-live :
    (root : Option String) (p : Process)
    → Leads (some nothing) (minting root ++ launching (some p)) (live (is_minted root))
unfolding follow next
launched-live none p = refl
launched-live (some root) p = refl

reported-over : Leads (some over) (reported ∷ []) over
unfolding follow next
reported-over = refl

reported-live : Leads (some (live false)) (reported ∷ []) (live false)
unfolding follow next
reported-live = refl

only_torn_down-over :
    (own : Bool) (e : Ending) (grace : ℕ)
    → Leads (some (live own)) (tear_down e grace own ∷ []) over
unfolding follow next tear_down
only_torn_down-over own e grace = refl

discarded-over :
    (root : String)
    → Leads (some (live true)) (discard_minted_root (some root) ++ reported ∷ []) over
unfolding follow next discard_minted_root
discarded-over root = refl

torn_down-over :
    (own : Bool) (e : Ending) (grace : ℕ)
    → Leads (some (live own)) (tear_down e grace own ∷ reported ∷ []) over
unfolding follow next tear_down
torn_down-over own e grace = refl

module _ (w : World) (f : Flags) (p : Prepared) (before : List Event) where
  pub on_message-over :
      (root : Option String) (success : Bool) (payload : Option String) (kind : String)
      → Leads (some nothing) before (live (is_minted root))
      → Leads (some nothing) (on_message w f p root before success payload kind).events over
        ⊎ (Leads
              (some nothing)
              (on_message w f p root before success payload kind).events
              (live false)
            × (root ≡ none)
            × (success ≡ false))
  unfolding on_message discard_minted_root
  on_message-over root success none kind h =
      inl (end_with (some nothing) before _ h (torn_down-over (is_minted root) w.ending p.grace))
  on_message-over none false (some payload) kind h =
      inr (end_with (some nothing) before _ h reported-live, refl, refl)
  on_message-over (some root) false (some payload) kind h =
      inl (end_with (some nothing) before _ h (discarded-over root))
  on_message-over root true (some payload) kind h =
      let s = supervise_child f p.cmd w.surroundings w.ending p.grace (is_minted root) in
      inl (
        finish-over (some nothing) before s.events s.outcome (
          ap (λ o. follow o s.events) h
          ∙ supervise_child-over (is_minted root) f p.cmd w.surroundings w.ending p.grace))

  pub on_spawn-handshake :
      (root : Option String) (e : TunstrapError)
      → is_handshake e.kind ≡ true
      → Leads (some nothing) before (live (is_minted root))
      → Leads (some nothing) (on_spawn w f p root before (err (tunstrap_error e))).events over
  unfolding on_spawn fail_before_child
  on_spawn-handshake root e kind h = rw kind (
      end_with (some nothing) (before ++ tear_down w.ending p.grace (is_minted root) ∷ []) _
        (end_with (some nothing) before _ h (only_torn_down-over (is_minted root) w.ending p.grace))
        reported-over)

  pub on_spawn-undecodable :
      (root : Option String) (e : Raised)
      → UndecodableFrame e
      → on_spawn w f p root before (err e) ≡ record { ending = escapes e; events = before }
  unfolding on_spawn
  on_spawn-undecodable root e (inl h) = rw h refl
  on_spawn-undecodable root e (inr (inl h)) = rw h refl
  on_spawn-undecodable root e (inr (inr h)) = rw h refl

  pub on_spawn-exception :
      (root : Option String) (name : String)
      → on_spawn w f p root before (err (exception name))
        ≡ record { ending = escapes (exception name); events = before }
  unfolding on_spawn
  on_spawn-exception root name = refl
