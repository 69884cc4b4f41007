-- ===== src/Kube/Patch/Selecting.antt =====
-- The guards of `rename_identities` on a document that has been parsed and patched: they find what
-- the parse has found, so only the reserved-namespace guard can refuse.

use tunstrap.Common.{
  ℕ, String, ◌≡◌, refl, sym, ap, ◌∙◌, Bool, false, Option, some, ok, ◌>>◌, refuse_if, ◌=t=◌,
}
use tunstrap.Kube.Document.{
  Value, Fields, null, scalar, text, seq, mapping, get, or_empty, items_of, fields_of, find_named,
  update_inner,
}
use tunstrap.Kube.Document.Laws.{
  get-update_inner, find_named-or_empty, find_named-items_of, find_named-eq,
}
use tunstrap.Kube.Document.Finding.{Finds, find_in-Finds, find_in_of_Finds, Finds-update_kept}
use tunstrap.Kube.Parse.{View, name_collision}
use tunstrap.Kube.Parse.Inversion.{Resolution}
use tunstrap.Kube.Patch.{Selected, mapping_of, patch_body, patch_view, collides, select_identities}
use tunstrap.Kube.Patch.Reads.{patch_view-clusters, patch_view-other}

-- A value whose fields hold a text is a mapping.
pub mapping_of_fields :
    (w : Value) (k s : String) → get k (fields_of w) ≡ text s → mapping_of w ≡ some (fields_of w)
unfolding get
mapping_of_fields (mapping f) k s h = refl
mapping_of_fields null k s h = cc
mapping_of_fields (scalar b t) k s h = cc
mapping_of_fields (text t) k s h = cc
mapping_of_fields (seq vs) k s h = cc

module _ (doc : Fields) (v : View) (own : v.doc ≡ doc) (r : Resolution doc v) (port : ℕ)
    (tls : Option String) (insecure : Bool) where
  abbrev pub patched : Fields
  patched = patch_view v port tls insecure

  abbrev pub patched_cluster : Fields
  patched_cluster = update_inner "cluster" (patch_body port tls insecure) r.cluster

  pub patched-other : (k : String) → ("clusters" =t= k) ≡ false → get k patched ≡ get k doc
  patched-other k h = patch_view-other v port tls insecure k h ∙ ap (get k) own

  pub cluster_in_patched :
      Finds (items_of (get "clusters" patched)) v.cluster_name v.cluster_at patched_cluster
  cluster_in_patched =
      rw (patch_view-clusters, own)
        (Finds-update_kept (update_inner "cluster" (patch_body port tls insecure))
          (find_in-Finds (items_of (get "clusters" doc)) v.cluster_name v.cluster_at r.cluster
            (sym (find_named-eq (get "clusters" doc) v.cluster_name) ∙ r.cluster_found))
          (get-update_inner "cluster" "name" (patch_body port tls insecure) r.cluster))

  pub context_in_patched :
      Finds (items_of (get "contexts" patched)) v.context_name r.context_at r.context
  context_in_patched = rw (patched-other "contexts" refl) (
      find_in-Finds _ _ _ _
        (sym (find_named-eq (get "contexts" doc) v.context_name) ∙ r.context_found))

  pub user_in_patched : Finds (items_of (get "users" patched)) v.user_name r.user_at r.user
  user_in_patched =
      rw (patched-other "users" refl)
        (find_in-Finds _ _ _ _ (sym (find_named-eq (get "users" doc) v.user_name) ∙ r.user_found))

  find_named-Finds :
      (w : Value) (name : String) (i : ℕ) (e : Fields)
      → Finds (items_of w) name i e
      → find_named (or_empty w) name ≡ some (i, e)
  find_named-Finds w name i e f =
      find_named-or_empty w name ∙ find_named-eq w name ∙ find_in_of_Finds f

  abbrev pub selected : Selected
  selected = record {
    context_at = r.context_at;
    cluster_at = v.cluster_at;
    user_at = r.user_at;
    old_cluster = v.cluster_name;
    old_user = v.user_name;
  }

  pub select_identities-patched :
      (new : String)
      → select_identities new patched
        ≡ (refuse_if (collides new patched) name_collision >> ok selected)
  unfolding select_identities
  select_identities-patched new = rw (
    patched-other "current-context" refl,
    r.current,
    find_named-items_of (get "contexts" patched) v.context_name,
    find_named-eq (get "contexts" patched) v.context_name,
    find_in_of_Finds context_in_patched,
    mapping_of_fields (get "context" r.context) "cluster" v.cluster_name r.cluster_ref,
    r.cluster_ref,
    r.user_ref,
    find_named-Finds (get "clusters" patched) _ _ _ cluster_in_patched,
    find_named-Finds (get "users" patched) _ _ _ user_in_patched,
  )
