-- ===== src/Kube/Targets/Delivered.antt =====
-- What the content of an output is.
use tunstrap.Common.{ℕ, String, ◌≡◌, sym, ◌∙◌, Bool, List, ok, arith, >>=-eq-ok, if◌then◌else◌}
use tunstrap.Kube.Document.{Fields}
use tunstrap.Kube.Parse.{View, parse_document}
use tunstrap.Kube.Patch.{identity_name, local_endpoint, patch_view, rename_identities}
use tunstrap.Kube.Patch.Reparse.{renamed_parses}
use tunstrap.Kube.Remote.{Libraries, KubeTarget, Answers, Tls, Reason, resolve_tls}
use tunstrap.Kube.Targets.{ListenerAct, done, Output, deliver, forward_and_deliver, run_target}
use tunstrap.Kube.Targets.Choice.{
  parse_kubeconfig-document, run_target-done, parse_and_forward-done,
}

module _ (lib : Libraries) (node name : String) where
  deliver-document :
      (v : View) (port : ℕ) (tls : Tls) (o : Output) (acts : List ListenerAct)
      (rs : List (Reason × Bool))
      → deliver lib node name v port tls ≡ done acts o rs
      → (doc : Fields) × (rename_identities node name (patch_view v port tls.name tls.insecure)
          ≡ ok doc)
        × (o.content_b64 ≡ lib.base64 (lib.dump doc))
        × (o.endpoint ≡ local_endpoint port)
        × (o.local_port ≡ port)
        × (o.context_name ≡ identity_name node name)
        × (o.cluster_name ≡ identity_name node name)
        × (o.certificate_authority_data
            ≡ (if tls.insecure then "" else v.certificate_authority_data))
        × (o.client_certificate_data ≡ v.client_certificate_data)
        × (o.client_key_data ≡ v.client_key_data)
  unfolding deliver
  deliver-document v port tls o acts rs h = ground arith

  forward_and_deliver-deliver :
      (t : KubeTarget) (a : Answers) (v : View) (host : String) (port : ℕ) (o : Output)
      (acts : List ListenerAct) (rs : List (Reason × Bool))
      → forward_and_deliver lib node name t a v (host, port) ≡ ok (done acts o rs)
      → (local_port : ℕ) × (tls : Tls) × (deliver lib node name v local_port tls ≡ done acts o rs)
  unfolding forward_and_deliver
  forward_and_deliver-deliver t a v host port o acts rs h =
      let (local_port, _, h1) = >>=-eq-ok (a.forward host port) _ h in
      let (tls, _, h2) = >>=-eq-ok (resolve_tls t host local_port a) _ h1 in
      (local_port, tls, ground arith)

  abbrev pub Describes : Output → View → Type 0
  Describes o w =
      (w.context_name ≡ o.context_name)
      × (w.cluster_name ≡ o.cluster_name)
      × (w.user_name ≡ o.context_name)
      × (w.server ≡ o.endpoint)
      × (w.certificate_authority_data ≡ o.certificate_authority_data)
      × (w.client_certificate_data ≡ o.client_certificate_data)
      × (w.client_key_data ≡ o.client_key_data)

  -- The content of an output is the dump of a document that parses, and what the parse reads from
  -- it is what the output's own fields say: names, endpoint, authority and client credentials.
  pub run_target-Describes :
      (t : KubeTarget) (a : Answers) (o : Output) (acts : List ListenerAct)
      (rs : List (Reason × Bool))
      → run_target lib node name t a ≡ ok (done acts o rs)
      → (doc : Fields) × (o.content_b64 ≡ lib.base64 (lib.dump doc))
        × (w : View) × (parse_document doc ≡ ok w)
        × Describes o w
  run_target-Describes t a o acts rs h =
      let (raw, _, h1) = run_target-done lib node name t a o acts rs h in
      let (v, parsed, endpoint, _, h2) =
        parse_and_forward-done lib node name t a raw o acts rs h1 in
      let (source, read) = parse_kubeconfig-document lib raw v parsed in
      let (port, tls, h3) = forward_and_deliver-deliver t a v endpoint.0 endpoint.1 o acts rs h2 in
      let (doc, renamed, content, at, at_port, context, cluster, ca, cert, key) =
        deliver-document v port tls o acts rs h3 in
      let (w, again, leads) =
        renamed_parses node name source doc v port tls.name tls.insecure read renamed in
      let (c, l, u, s, wa, wc, wk) = leads in
      (
        doc,
        content,
        w,
        again,
        (
          c ∙ sym context,
          l ∙ sym cluster,
          u ∙ sym context,
          s ∙ sym at,
          wa ∙ sym ca,
          wc ∙ sym cert,
          wk ∙ sym key,
        ),
      )
