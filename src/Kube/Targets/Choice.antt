-- ===== src/Kube/Targets/Choice.antt =====
-- Which TLS name a target gets, and when verification is off.
use tunstrap.Common.{
  ℕ, String, ◌≡◌, refl, sym, ◌∙◌, ◌&&◌, Bool, true, false, ◌||◌, not, Option, none, some, List, [],
  ◌∷◌, ok, arith, >>=-eq-ok, contains, if◌then◌else◌, same_text,
}
use tunstrap.Kube.Document.{Fields, null, scalar, text, get}
use tunstrap.Kube.Parse.{View, load_root, parse_kubeconfig, parse_document}
use tunstrap.Kube.Patch.{patch_view, rename_identities}
use tunstrap.Kube.Patch.Verifying.{Verifies, renamed-Verifies}
use tunstrap.Kube.Remote.{
  Libraries, KubeTarget, Answers, Tls, choose_tls_server_name, settle_tls, probe_tls, resolve_tls,
  Reason, fetch_one, split_host_port,
}
use tunstrap.Kube.Targets.{
  ListenerAct, is_none, done, Output, deliver, forward_and_deliver, parse_and_forward, run_target,
}

contains-first : (name : String) (names : List String) → contains (name ∷ names) name ≡ true
contains-first name names = rw same_text

-- The choice is sound: a chosen name stands in the certificate, it is the host itself exactly when
-- the certificate has the host, and no name is chosen only if the certificate has none at all.
pub choose_tls_server_name_lem :
    (host : String) (dns_sans ip_sans : List String)
    → ((choose_tls_server_name host dns_sans ip_sans).1
        ≡ not (contains dns_sans host || contains ip_sans host))
      × ((chosen : String)
          → (choose_tls_server_name host dns_sans ip_sans).0 ≡ some chosen
          → (contains dns_sans chosen || contains ip_sans chosen) ≡ true)
      × ((choose_tls_server_name host dns_sans ip_sans).1 ≡ false
          → (choose_tls_server_name host dns_sans ip_sans).0 ≡ some host)
      × ((choose_tls_server_name host dns_sans ip_sans).0 ≡ none → (dns_sans ≡ []) × (ip_sans ≡ []))
unfolding choose_tls_server_name
choose_tls_server_name_lem host [] [] = (refl, λ chosen h. cc, λ h. cc, λ h. (refl, refl))
choose_tls_server_name_lem host [] (ip ∷ ips) = (
  ground arith,
  λ chosen h. ground (arith, same_text ip, same_text host),
  λ h. ground arith,
  λ h. ground arith,
)
choose_tls_server_name_lem host (dns ∷ more) ip_sans = (
  ground arith,
  λ chosen h. ground (arith, same_text dns, same_text host),
  λ h. ground arith,
  λ h. ground arith,
)

-- What the loop records of an output's TLS name and authority.
abbrev pub IsAllowed : KubeTarget → Output → Type 0
IsAllowed t o =
    (o.tls_server_name ≡ none
      → (t.tls_server_name ≡ none)
        × (t.insecure_fallback ≡ true)
        × (o.certificate_authority_data ≡ ""))
    × ((name : String) → t.tls_server_name ≡ some name → o.tls_server_name ≡ some name)

-- What the kubeconfig that is handed out says of verification, in the cluster that its current
-- context leads to: `insecure-skip-tls-verify` is set for an output without a TLS name only, and is
-- else what the fetched file has.
abbrev pub Declares : Output → View → View → Type 0
Declares o v w =
    (o.tls_server_name ≡ none
      → (get "insecure-skip-tls-verify" w.cluster_body ≡ scalar true "True")
        × (get "tls-server-name" w.cluster_body ≡ null))
    × ((name : String)
        → o.tls_server_name ≡ some name
        → (get "insecure-skip-tls-verify" w.cluster_body
            ≡ get "insecure-skip-tls-verify" v.cluster_body)
          × (get "tls-server-name" w.cluster_body ≡ text name))

abbrev pub IsGuarded : Libraries → KubeTarget → Answers → Output → Type 0
IsGuarded lib t a o =
    IsAllowed t o
    × ((raw : List ℕ) × (fetch_one a ≡ ok raw)
        × (v : View) × (parse_kubeconfig lib.yaml raw ≡ ok v)
        × (doc : Fields) × (o.content_b64 ≡ lib.base64 (lib.dump doc))
        × (w : View) × (parse_document doc ≡ ok w)
        × Declares o v w)

abbrev IsSettled : KubeTarget → Tls → Type 0
IsSettled t tls =
    (tls.insecure ≡ true → (t.tls_server_name ≡ none) × (t.insecure_fallback ≡ true))
    × ((name : String)
        → t.tls_server_name ≡ some name
        → (tls.name ≡ some name) × (tls.insecure ≡ false))

settle_tls-insecure :
    (t : KubeTarget) (choice : Option String × Bool)
    → (settle_tls t choice).insecure ≡ true
    → t.insecure_fallback ≡ true
unfolding settle_tls
settle_tls-insecure t (none, f) h = ground arith
settle_tls-insecure t (some c, true) h = cc
settle_tls-insecure t (some c, false) h = cc

probe_tls-insecure :
    (t : KubeTarget) (host : String) (port : ℕ) (a : Answers) (tls : Tls)
    → probe_tls t host port a ≡ ok tls
    → tls.insecure ≡ true
    → t.insecure_fallback ≡ true
unfolding probe_tls
probe_tls-insecure t host port a tls h off =
    let (sans, _, settled) = >>=-eq-ok (a.sans port) _ h in
    let choice = choose_tls_server_name host sans.0 sans.1 in
    let same : settle_tls t choice ≡ tls = ground arith in
    settle_tls-insecure t choice (rw same off)

resolve_tls-IsSettled :
    (t : KubeTarget) (host : String) (port : ℕ) (a : Answers) (tls : Tls)
    → resolve_tls t host port a ≡ ok tls
    → IsSettled t tls
unfolding resolve_tls
resolve_tls-IsSettled t host port a tls h =
    (λ off. ground (arith, probe_tls-insecure t host port a tls), λ name e. ground arith)

module _ (lib : Libraries) (node name : String) (t : KubeTarget) (a : Answers) where
  deliver-output :
      (v : View) (port : ℕ) (tls : Tls) (o : Output) (acts : List ListenerAct)
      (rs : List (Reason × Bool))
      → deliver lib node name v port tls ≡ done acts o rs
      → (o.tls_server_name ≡ (if tls.insecure then none else tls.name))
        × (o.certificate_authority_data
            ≡ (if tls.insecure then "" else v.certificate_authority_data))
  unfolding deliver
  deliver-output v port tls o acts rs h = ground arith

  forward_and_deliver-IsAllowed :
      (v : View) (host : String) (port : ℕ) (o : Output) (acts : List ListenerAct)
      (rs : List (Reason × Bool))
      → forward_and_deliver lib node name t a v (host, port) ≡ ok (done acts o rs)
      → IsAllowed t o
  unfolding forward_and_deliver
  forward_and_deliver-IsAllowed v host port o acts rs h =
      let (local_port, _, h1) = >>=-eq-ok (a.forward host port) _ h in
      let (tls, resolved, h2) = >>=-eq-ok (resolve_tls t host local_port a) _ h1 in
      let (off, override) = resolve_tls-IsSettled t host local_port a tls resolved in
      let shape = deliver-output v local_port tls o acts rs in
      (λ none_given. ground (arith, off, shape), λ n e. ground (arith, override n, shape))

  -- A round that delivers has come all the way down.
  pub parse_and_forward-done :
      (raw : List ℕ) (o : Output) (acts : List ListenerAct) (rs : List (Reason × Bool))
      → parse_and_forward lib node name t a raw ≡ ok (done acts o rs)
      → (v : View) × (parse_kubeconfig lib.yaml raw ≡ ok v)
        × (endpoint : String × ℕ) × (split_host_port lib.urlsplit v.server ≡ ok endpoint)
        × (forward_and_deliver lib node name t a v endpoint ≡ ok (done acts o rs))
  unfolding parse_and_forward
  parse_and_forward-done raw o acts rs h = ground arith

  pub run_target-done :
      (o : Output) (acts : List ListenerAct) (rs : List (Reason × Bool))
      → run_target lib node name t a ≡ ok (done acts o rs)
      → (raw : List ℕ) × (fetch_one a ≡ ok raw)
        × (parse_and_forward lib node name t a raw ≡ ok (done acts o rs))
  unfolding run_target
  run_target-done acts o rs h = ground arith

pub parse_kubeconfig-document :
    (lib : Libraries) (raw : List ℕ) (v : View)
    → parse_kubeconfig lib.yaml raw ≡ ok v
    → (doc : Fields) × (parse_document doc ≡ ok v)
unfolding parse_kubeconfig
parse_kubeconfig-document lib raw v h =
    let (doc, _, parsed) = >>=-eq-ok (load_root (lib.yaml raw)) _ h in (doc, parsed)

-- The TLS settings that an output is built of, with whether there is a name when they are secure.
settled_tls :
    (lib : Libraries) (node name : String) (t : KubeTarget) (a : Answers) (v : View) (host : String)
    (port : ℕ) (o : Output) (acts : List ListenerAct) (rs : List (Reason × Bool))
    → forward_and_deliver lib node name t a v (host, port) ≡ ok (done acts o rs)
    → (local_port : ℕ) × (tls : Tls) × (deliver lib node name v local_port tls ≡ done acts o rs)
      × ((is_none tls.name && not tls.insecure) ≡ false)
unfolding forward_and_deliver
settled_tls lib node name t a v host port o acts rs h =
    let (local_port, _, h1) = >>=-eq-ok (a.forward host port) _ h in
    let (tls, _, h2) = >>=-eq-ok (resolve_tls t host local_port a) _ h1 in
    (local_port, tls, ground arith, ground arith)

deliver-content :
    (lib : Libraries) (node name : String) (v : View) (port : ℕ) (tls : Tls) (o : Output)
    (acts : List ListenerAct) (rs : List (Reason × Bool))
    → deliver lib node name v port tls ≡ done acts o rs
    → (doc : Fields) × (rename_identities node name (patch_view v port tls.name tls.insecure)
        ≡ ok doc)
      × (o.content_b64 ≡ lib.base64 (lib.dump doc))
unfolding deliver
deliver-content lib node name v port tls o acts rs h = ground arith

name_text : (n m : String) → some n ≡ some m → text n ≡ text m
name_text n m h = cc

output-Declares :
    (o : Output) (v w : View) (tls : Option String) (insecure : Bool)
    → o.tls_server_name ≡ (if insecure then none else tls)
    → (is_none tls && not insecure) ≡ false
    → Verifies v w tls insecure
    → Declares o v w
output-Declares o v w tls true shape named (skip, server) =
    (λ off. (skip, server), λ name on. cc (sym shape ∙ on))
output-Declares o v w none false shape named (skip, server) = cc
output-Declares o v w (some n) false shape named (skip, server) =
    (λ off. cc (sym shape ∙ off), λ name on. (skip, server ∙ name_text n name (sym shape ∙ on)))

-- An output leaves TLS verification off only where the target allows it and names no server itself,
-- and then carries no authority; a name that the target gives is always the one that is used. The
-- kubeconfig that is its content says the same where its current context leads to: without a TLS name
-- in the output it has `insecure-skip-tls-verify` set and no `tls-server-name`; with one, it has that
-- name, and `insecure-skip-tls-verify` is what it was in the fetched file.
pub run_target-IsGuarded :
    (lib : Libraries) (node name : String) (t : KubeTarget) (a : Answers) (o : Output)
    (acts : List ListenerAct) (rs : List (Reason × Bool))
    → run_target lib node name t a ≡ ok (done acts o rs)
    → IsGuarded lib t a o
run_target-IsGuarded lib node name t a o acts rs h =
    let (raw, fetched, h1) = run_target-done lib node name t a o acts rs h in
    let (v, parsed, endpoint, _, h2) = parse_and_forward-done lib node name t a raw o acts rs h1 in
    let (source, read) = parse_kubeconfig-document lib raw v parsed in
    let (port, tls, h3, named) =
      settled_tls lib node name t a v endpoint.0 endpoint.1 o acts rs h2 in
    let (shape, _) = deliver-output lib node name t a v port tls o acts rs h3 in
    let (doc, renamed, content) = deliver-content lib node name v port tls o acts rs h3 in
    let (w, again, verifies) =
      renamed-Verifies node name source doc v port tls.name tls.insecure read renamed in
    (
      forward_and_deliver-IsAllowed lib node name t a v endpoint.0 endpoint.1 o acts rs h2,
      (
        raw,
        fetched,
        v,
        parsed,
        doc,
        content,
        w,
        again,
        output-Declares o v w tls.name tls.insecure shape named verifies,
      ),
    )
