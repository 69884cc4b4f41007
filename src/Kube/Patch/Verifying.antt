-- ===== src/Kube/Patch/Verifying.antt =====
-- What the kubeconfig that is handed out says of TLS verification: the cluster body that its current
-- context leads to, beside the one of the fetched file.
use tunstrap.Common.{
  ℕ, String, ◌≡◌, refl, sym, ap, ◌∙◌, Bool, true, false, Option, none, some, ok, arith,
  if◌then◌else◌,
}
use tunstrap.Kube.Document.{Value, Fields, null, scalar, text, get, put, update_inner}
use tunstrap.Kube.Document.Laws.{document_laws}
use tunstrap.Kube.Parse.{Parsed, View, parse_document}
use tunstrap.Kube.Parse.Inversion.{
  cluster_body, completed, parse_document-Resolution, Resolution-parse_document,
}
use tunstrap.Kube.Patch.{patch_body, patch_view, collides, rename_identities, identity_name}
use tunstrap.Kube.Patch.Reparse.{
  renamed, rename_to-ok, renamed-Resolution, renamed-Resolution-cluster, identity_name-filled,
  free_of_guard,
}

-- What the patch makes of `tls-server-name`.
abbrev pub server_name_of : Bool → Option String → Value → Value
server_name_of true tls before = null
server_name_of false none before = before
server_name_of false (some name) before = text name

module _ (port : ℕ) (body : Fields) where
  patch_body-skip :
      (tls : Option String) (insecure : Bool)
      → get "insecure-skip-tls-verify" (patch_body port tls insecure body)
        ≡ (if insecure then scalar true "True" else get "insecure-skip-tls-verify" body)
  unfolding patch_body
  patch_body-skip tls true = simp document_laws
  patch_body-skip none false = simp document_laws
  patch_body-skip (some name) false = simp document_laws

  patch_body-server_name :
      (tls : Option String) (insecure : Bool)
      → get "tls-server-name" (patch_body port tls insecure body)
        ≡ server_name_of insecure tls (get "tls-server-name" body)
  unfolding patch_body
  patch_body-server_name tls true = simp document_laws
  patch_body-server_name none false = simp document_laws
  patch_body-server_name (some name) false = simp document_laws

ok_injective : {v w : View} → ◌≡◌ {A = Parsed View} (ok v) (ok w) → v ≡ w
ok_injective h = cc

renamed_body :
    (new : Value) (change : Fields → Fields) (cluster : Fields)
    → cluster_body (put "name" new (update_inner "cluster" change cluster))
      ≡ change (cluster_body cluster)
renamed_body new change cluster = simp document_laws refl

-- The two keys of the cluster that a document leads to, beside those of the fetched one.
abbrev pub Verifies : View → View → Option String → Bool → Type 0
Verifies v w tls insecure =
    (get "insecure-skip-tls-verify" w.cluster_body
      ≡ (if insecure then scalar true "True" else get "insecure-skip-tls-verify" v.cluster_body))
    × (get "tls-server-name" w.cluster_body
        ≡ server_name_of insecure tls (get "tls-server-name" v.cluster_body))

pub renamed-Verifies :
    (node target : String) (doc doc' : Fields) (v : View) (port : ℕ) (tls : Option String)
    (insecure : Bool)
    → parse_document doc ≡ ok v
    → rename_identities node target (patch_view v port tls insecure) ≡ ok doc'
    → (w : View) × (parse_document doc' ≡ ok w) × Verifies v w tls insecure
unfolding rename_identities
renamed-Verifies node target doc doc' v port tls insecure parsed renamed_ok =
    let (own, r) = parse_document-Resolution doc v parsed in
    let new = identity_name node target in
    let shape = rename_to-ok new doc v own r port tls insecure in
    let free : collides new (patch_view v port tls insecure) ≡ false = ground arith in
    let same : renamed doc v own r port tls insecure new ≡ doc' = ground arith in
    let r' =
      renamed-Resolution doc v own r port tls insecure new (identity_name-filled node target)
        (free_of_guard new _ free) in
    let before : cluster_body r.cluster ≡ v.cluster_body =
      ap (λ (x : View). x.cluster_body)
        (sym (ok_injective (sym parsed ∙ Resolution-parse_document doc v r))) in
    let after : cluster_body r'.cluster ≡ patch_body port tls insecure v.cluster_body =
      ap cluster_body (
        renamed-Resolution-cluster doc v own r port tls insecure new
          (identity_name-filled node target) (free_of_guard new _ free))
      ∙ renamed_body (text new) (patch_body port tls insecure) r.cluster
      ∙ ap (patch_body port tls insecure) before in
    (
      completed _ _ r',
      rw (← same) (Resolution-parse_document _ _ r'),
      (
        ap (get "insecure-skip-tls-verify") after
            ∙ patch_body-skip port v.cluster_body tls insecure,
        ap (get "tls-server-name") after ∙ patch_body-server_name port v.cluster_body tls insecure,
      ),
    )
