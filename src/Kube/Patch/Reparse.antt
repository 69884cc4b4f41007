-- ===== src/Kube/Patch/Reparse.antt =====
-- The renamed kubeconfig, parsed again: its current context leads to the entries of the fetched one
-- under the generated name, at the local endpoint.
use tunstrap.Common.{
  ℕ, String, ◌≡◌, refl, Bool, true, false, Option, none, some, ok, err, arith, if◌then◌else◌, ◌=t=◌,
  same_text, prefix_filled,
}
use tunstrap.Kube.Document.{Value, Fields, text, get, put, or_empty, items_of, find_in, find_named}
use tunstrap.Kube.Document.Laws.{document_laws, find_named-or_empty, find_named-eq}
use tunstrap.Kube.Document.Finding.{Absent, find_in-Absent, find_in_of_Finds, Finds-update_new}
use tunstrap.Kube.Parse.{View, KubeError, name_collision, parse_document, string_field}
use tunstrap.Kube.Parse.Inversion.{
  Resolution, cluster_body, completed, parse_document-Resolution, Resolution-parse_document,
}
use tunstrap.Kube.Patch.{
  is_found, local_endpoint, patch_body, patch_view, collides, rename_context, assign_identities,
  rename_to, rename_identities, identity_name,
}
use tunstrap.Kube.Patch.Reads.{
  patch_body-server, patch_body-authority, assign-current, assign-contexts, assign-clusters,
  assign-users, Finds-sweep,
}
use tunstrap.Kube.Patch.Selecting.{
  patched, patched_cluster, cluster_in_patched, context_in_patched, user_in_patched, selected,
  select_identities-patched,
}

-- Where the guard does not refuse, no list has an entry of the new name.
is_found-Absent :
    (w : Value) (new : String)
    → is_found (find_named (or_empty w) new) ≡ false
    → Absent (items_of w) new
is_found-Absent w new h =
    find_in-Absent (items_of w) new (
      absent (find_in (items_of w) new) (rw (← find_named-eq w new, ← find_named-or_empty w new) h))
  where
    absent : (o : Option (ℕ × Fields)) → is_found o ≡ false → o ≡ none
    absent none e = refl
    absent (some x) e = cc

abbrev pub NewNameFree : String → Fields → Type 0
NewNameFree new doc =
    Absent (items_of (get "contexts" doc)) new
    × Absent (items_of (get "clusters" doc)) new
    × Absent (items_of (get "users" doc)) new

pub free_of_guard : (new : String) (doc : Fields) → collides new doc ≡ false → NewNameFree new doc
unfolding collides
free_of_guard new doc h = (
  is_found-Absent (get "contexts" doc) new (ground arith),
  is_found-Absent (get "clusters" doc) new (ground arith),
  is_found-Absent (get "users" doc) new (ground arith),
)

local_endpoint-filled : (port : ℕ) → (local_endpoint port =t= "") ≡ false
unfolding local_endpoint
local_endpoint-filled port = prefix_filled "https://127.0.0.1:" _ refl

string_field-patched :
    (port : ℕ) (tls : Option String) (insecure : Bool) (body : Fields) (ca : String)
    → string_field body "certificate-authority-data" ≡ ok ca
    → string_field (patch_body port tls insecure body) "certificate-authority-data"
      ≡ ok (if insecure then "" else ca)
unfolding string_field
string_field-patched port tls true body ca h = rw patch_body-authority
string_field-patched port tls false body ca h = rw patch_body-authority h

module _ (doc : Fields) (v : View) (own : v.doc ≡ doc) (r : Resolution doc v) (port : ℕ)
    (tls : Option String) (insecure : Bool) (new : String) where
  abbrev pub renamed : Fields
  renamed =
      assign_identities new (selected doc v own r port tls insecure)
        (patched doc v own r port tls insecure)

  -- The view of the renamed document.
  abbrev pub renamed_view : View
  renamed_view = record v {
    context_name = new;
    cluster_name = new;
    user_name = new;
    server = local_endpoint port;
    certificate_authority_data = if insecure then "" else v.certificate_authority_data;
  }

  pub renamed-Resolution :
      (new =t= "") ≡ false
      → NewNameFree new (patched doc v own r port tls insecure)
      → Resolution renamed renamed_view
  unfolding rename_context
  renamed-Resolution filled free = record {
    context_at = r.context_at;
    context = rename_context new r.context;
    cluster = put "name" (text new) (patched_cluster doc v own r port tls insecure);
    user_at = r.user_at;
    user = put "name" (text new) r.user;
    current = rw assign-current;
    current_filled = filled;
    context_found =
        rw (find_named-eq, assign-contexts)
          (find_in_of_Finds (
            Finds-sweep v.cluster_name v.user_name new (
              Finds-update_new (rename_context new) new
                (context_in_patched doc v own r port tls insecure) free.0
                (simp (document_laws, same_text)))));
    cluster_ref = simp document_laws;
    cluster_filled = filled;
    user_ref = simp document_laws;
    user_filled = filled;
    cluster_found =
        rw (find_named-eq, assign-clusters)
          (find_in_of_Finds (
            Finds-update_new (put "name" (text new)) new
              (cluster_in_patched doc v own r port tls insecure) free.1
              (simp (document_laws, same_text))));
    server = simp (document_laws, patch_body-server);
    server_filled = local_endpoint-filled port;
    user_found =
        rw (find_named-eq, assign-users)
          (find_in_of_Finds (
            Finds-update_new (put "name" (text new)) new
              (user_in_patched doc v own r port tls insecure) free.2
              (simp (document_laws, same_text))));
    authority = simp document_laws (
        string_field-patched port tls insecure (cluster_body r.cluster) v.certificate_authority_data
          r.authority);
    certificate = simp document_laws r.certificate;
    key = simp document_laws r.key;
  }

  pub renamed-Resolution-cluster :
      (filled : (new =t= "") ≡ false)
      (free : NewNameFree new (patched doc v own r port tls insecure))
      → (renamed-Resolution filled free).cluster
        ≡ put "name" (text new) (patched_cluster doc v own r port tls insecure)
  unfolding renamed-Resolution
  renamed-Resolution-cluster filled free = refl

pub rename_to-ok :
    (new : String) (doc : Fields) (v : View) (own : v.doc ≡ doc) (r : Resolution doc v) (port : ℕ)
    (tls : Option String) (insecure : Bool)
    → rename_to new (patch_view v port tls insecure) ≡ (
        if collides new (patch_view v port tls insecure)
        then err name_collision
        else ok (renamed doc v own r port tls insecure new))
unfolding rename_to
rename_to-ok new doc v own r port tls insecure =
    rw (select_identities-patched doc v own r port tls insecure new) (ground arith)

pub identity_name-filled : (node target : String) → (identity_name node target =t= "") ≡ false
unfolding identity_name
identity_name-filled node target = prefix_filled "tunstrap-" _ refl

-- `rename_identities` on a document that `parse_kubeconfig` has accepted and `patch_view` has
-- patched refuses for one reason alone: the document already uses the generated name.
pub rename_refuses_only_collision :
    (node target : String) (doc : Fields) (v : View) (port : ℕ) (tls : Option String)
    (insecure : Bool) (e : KubeError)
    → parse_document doc ≡ ok v
    → rename_identities node target (patch_view v port tls insecure) ≡ err e
    → (e ≡ name_collision)
      × (collides (identity_name node target) (patch_view v port tls insecure) ≡ true)
unfolding rename_identities
rename_refuses_only_collision node target doc v port tls insecure e parsed refused =
    let (own, r) = parse_document-Resolution doc v parsed in
    let shape = rename_to-ok (identity_name node target) doc v own r port tls insecure in
    ground arith

abbrev pub Leads : View → View → ℕ → Bool → String → Type 0
Leads v w port insecure new =
    (w.context_name ≡ new)
    × (w.cluster_name ≡ new)
    × (w.user_name ≡ new)
    × (w.server ≡ local_endpoint port)
    × (w.certificate_authority_data ≡ (if insecure then "" else v.certificate_authority_data))
    × (w.client_certificate_data ≡ v.client_certificate_data)
    × (w.client_key_data ≡ v.client_key_data)

-- The kubeconfig that is handed out parses again. Its current context, cluster and user are all the
-- generated name, its server is the local end of the forward, its client credentials are those of
-- the fetched file, and so is its authority unless the patch was insecure, which drops it.
pub renamed_parses :
    (node target : String) (doc doc' : Fields) (v : View) (port : ℕ) (tls : Option String)
    (insecure : Bool)
    → parse_document doc ≡ ok v
    → rename_identities node target (patch_view v port tls insecure) ≡ ok doc'
    → (w : View) × (parse_document doc' ≡ ok w)
      × Leads v w port insecure (identity_name node target)
unfolding rename_identities
renamed_parses node target doc doc' v port tls insecure parsed renamed_ok =
    let (own, r) = parse_document-Resolution doc v parsed in
    let new = identity_name node target in
    let shape = rename_to-ok new doc v own r port tls insecure in
    let free : collides new (patch_view v port tls insecure) ≡ false = ground arith in
    let same : renamed doc v own r port tls insecure new ≡ doc' = ground arith in
    let r' =
      renamed-Resolution doc v own r port tls insecure new (identity_name-filled node target)
        (free_of_guard new _ free) in
    (
      completed _ _ r',
      rw (← same) (Resolution-parse_document _ _ r'),
      (refl, refl, refl, refl, refl, refl, refl),
    )
