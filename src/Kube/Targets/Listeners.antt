-- ===== src/Kube/Targets/Listeners.antt =====
-- What each round of `run_kube_targets` does with the listener that it opens.
use tunstrap.Common.{
  ℕ, inl, inr, ◌⊎◌, Bool-cases, Result, err, String, ◌≡◌, refl, true, ◌&&◌, not, List, [], ◌∷◌, ok,
  >>=-eq-ok, same_text,
}
use tunstrap.Kube.Remote.{
  Libraries, os_error, timeout, over_cap, asyncssh_error, fetch_one, split_host_port, FetchError,
  startup_error, kube, caught, KubeTarget, Answers, Crash, Tls, resolve_tls,
}
use mathlib.Core.Path.{subst}
use tunstrap.Kube.Document.{Fields}
use tunstrap.Kube.Parse.{Parsed, View, parse_kubeconfig}
use tunstrap.Kube.Patch.{patch_view, rename_identities}
use tunstrap.Kube.Targets.{
  ListenerAct, forwarded, closed, listening_after, is_none, deliver, forward_and_deliver,
  parse_and_forward, Round, failed, done, run_target,
}

ok_round : {r q : Round} → ◌≡◌ {A = Result Crash Round} (ok r) (ok q) → r ≡ q
ok_round h = cc

-- A round that fails has closed the listener that it opened, if any; one that delivers leaves its
-- listener open.
abbrev pub IsTidy : Round → Type 0
IsTidy (failed acts reasons) = (acts ≡ []) ⊎ (acts ≡ forwarded ∷ closed ∷ [])
IsTidy (done acts o reasons) = acts ≡ forwarded ∷ []

pub listening_as_before :
    (name : String) (acts : List ListenerAct) (names : List String)
    → (acts ≡ []) ⊎ (acts ≡ forwarded ∷ closed ∷ [])
    → listening_after name acts names ≡ names
listening_as_before name acts names (inl none_done) = rw none_done refl
listening_as_before name acts names (inr both) = rw both (rw same_text refl)

module _ (lib : Libraries) (node name : String) where
  deliver-IsTidy : (v : View) (port : ℕ) (tls : Tls) → IsTidy (deliver lib node name v port tls)
  unfolding deliver
  deliver-IsTidy v port tls =
      by_name (rename_identities node name (patch_view v port tls.name tls.insecure)) refl
    where
      by_name :
          (named : Parsed Fields)
          → rename_identities node name (patch_view v port tls.name tls.insecure) ≡ named
          → IsTidy (deliver lib node name v port tls)
      by_name (err e) h = rw (IsTidy, h) (inr refl)
      by_name (ok doc) h = rw (IsTidy, h) refl

  forward_and_deliver-IsTidy :
      (t : KubeTarget) (a : Answers) (v : View) (endpoint : String × ℕ) (r : Round)
      → forward_and_deliver lib node name t a v endpoint ≡ ok r
      → IsTidy r
  unfolding forward_and_deliver
  forward_and_deliver-IsTidy t a v (host, port) r h =
      let (local_port, _, h1) = >>=-eq-ok (a.forward host port) _ h in
      let (tls, _, h2) = >>=-eq-ok (resolve_tls t host local_port a) _ h1 in
      elim (Bool-cases (is_none tls.name && not tls.insecure)) [
        | inl unusable ↦ subst IsTidy (ok_round (rw unusable at h2)) (inr refl)
        | inr usable ↦ subst IsTidy (ok_round (rw usable at h2)) (deliver-IsTidy v local_port tls)
      ]

  with_endpoint-IsTidy :
      (t : KubeTarget) (a : Answers) (v : View) (r : Round) (e : Parsed (String × ℕ))
      → elim e [
        | err e ↦ ok (failed [] ((kube e, true) ∷ []))
        | ok endpoint ↦ forward_and_deliver lib node name t a v endpoint
      ]
        ≡ ok r
      → IsTidy r
  with_endpoint-IsTidy t a v r (err e) h = subst IsTidy (ok_round h) (inl refl)
  with_endpoint-IsTidy t a v r (ok endpoint) h = forward_and_deliver-IsTidy t a v endpoint r h

  with_view-IsTidy :
      (t : KubeTarget) (a : Answers) (r : Round) (p : Parsed View)
      → elim p [
        | err e ↦ ok (failed [] ((kube e, true) ∷ []))
        | ok v ↦ elim (split_host_port lib.urlsplit v.server) [
          | err e ↦ ok (failed [] ((kube e, true) ∷ []))
          | ok endpoint ↦ forward_and_deliver lib node name t a v endpoint
        ]
      ]
        ≡ ok r
      → IsTidy r
  with_view-IsTidy t a r (err e) h = subst IsTidy (ok_round h) (inl refl)
  with_view-IsTidy t a r (ok v) h =
      with_endpoint-IsTidy t a v r (split_host_port lib.urlsplit v.server) h

  fetched-IsTidy :
      (t : KubeTarget) (a : Answers) (r : Round) (f : Result FetchError (List ℕ))
      → elim f [
        | err asyncssh_error ↦ err startup_error
        | err e ↦ ok (failed [] ((caught e, true) ∷ []))
        | ok raw ↦ parse_and_forward lib node name t a raw
      ]
        ≡ ok r
      → IsTidy r
  unfolding parse_and_forward
  fetched-IsTidy t a r (err os_error) h = subst IsTidy (ok_round h) (inl refl)
  fetched-IsTidy t a r (err timeout) h = subst IsTidy (ok_round h) (inl refl)
  fetched-IsTidy t a r (err over_cap) h = subst IsTidy (ok_round h) (inl refl)
  fetched-IsTidy t a r (err asyncssh_error) h = cc
  fetched-IsTidy t a r (ok raw) h = with_view-IsTidy t a r (parse_kubeconfig lib.yaml raw) h

  pub run_target-IsTidy :
      (t : KubeTarget) (a : Answers) (r : Round) → run_target lib node name t a ≡ ok r → IsTidy r
  unfolding run_target
  run_target-IsTidy t a r h = fetched-IsTidy t a r (fetch_one a) h
