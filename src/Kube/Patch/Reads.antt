-- ===== src/Kube/Patch/Reads.antt =====
-- What the keys of the document hold behind `patch_view` and behind the assignments of
-- `rename_identities`.
use tunstrap.Common.{
  ℕ, String, ◌≡◌, refl, ap, ◌∙◌, Bool, true, false, Option, none, some, if◌then◌else◌, ◌=t=◌,
}
use tunstrap.Kube.Document.{
  Value, Items, Fields, null, text, seq, mapping, get, put, items_of, is_text, update_at,
  update_inner,
}
use tunstrap.Kube.Document.Laws.{document_laws}
use tunstrap.Kube.Document.Finding.{Finds, has_name, first, later}
use tunstrap.Kube.Parse.{View}
use tunstrap.Kube.Patch.{
  Selected, local_endpoint, patch_body, patch_view, sweep_context, sweep_entry, sweep_shared_refs,
  rename_context, assign_identities,
}

module _ (v : View) (port : ℕ) (tls : Option String) (insecure : Bool) where
  abbrev patched_clusters : Items
  patched_clusters =
      update_at v.cluster_at (update_inner "cluster" (patch_body port tls insecure))
        (items_of (get "clusters" v.doc))

  pub patch_view-clusters : get "clusters" (patch_view v port tls insecure) ≡ seq patched_clusters
  unfolding patch_view
  patch_view-clusters = simp document_laws

  pub patch_view-other :
      (k : String)
      → ("clusters" =t= k) ≡ false
      → get k (patch_view v port tls insecure) ≡ get k v.doc
  unfolding patch_view
  patch_view-other k h = simp document_laws (rw h)

module _ (port : ℕ) (tls : Option String) where
  pub patch_body-server :
      (insecure : Bool) (body : Fields)
      → get "server" (patch_body port tls insecure body) ≡ text (local_endpoint port)
  unfolding patch_body
  patch_body-server true body = simp document_laws
  patch_body-server false body =
      elim tls as (λ t. get "server" (patch_body port t false body) ≡ text (local_endpoint port)) [
        | none ↦ simp document_laws
        | some name ↦ simp document_laws
      ]

  pub patch_body-authority :
      (insecure : Bool) (body : Fields)
      → get "certificate-authority-data" (patch_body port tls insecure body)
        ≡ (if insecure then null else get "certificate-authority-data" body)
  unfolding patch_body
  patch_body-authority true body = simp document_laws
  patch_body-authority false body =
      elim tls
        as (λ t.
          get "certificate-authority-data" (patch_body port t false body)
          ≡ get "certificate-authority-data" body) [
            | none ↦ simp document_laws
            | some name ↦ simp document_laws
          ]

module _ (new : String) (s : Selected) (doc : Fields) where
  pub assign-current : get "current-context" (assign_identities new s doc) ≡ text new
  unfolding assign_identities
  assign-current = simp document_laws

  pub assign-contexts :
      get "contexts" (assign_identities new s doc)
      ≡ seq (
          sweep_shared_refs s.context_at s.old_cluster s.old_user new
            (update_at s.context_at (rename_context new) (items_of (get "contexts" doc))))
  unfolding assign_identities
  assign-contexts = simp document_laws

  pub assign-clusters :
      get "clusters" (assign_identities new s doc)
      ≡ seq (update_at s.cluster_at (put "name" (text new)) (items_of (get "clusters" doc)))
  unfolding assign_identities
  assign-clusters = simp document_laws

  pub assign-users :
      get "users" (assign_identities new s doc)
      ≡ seq (update_at s.user_at (put "name" (text new)) (items_of (get "users" doc)))
  unfolding assign_identities
  assign-users = simp document_laws

module _ (old_cluster old_user new : String) where
  sweep_context-name :
      (w : Value) (e : Fields)
      → get "name" (sweep_context old_cluster old_user new w e) ≡ get "name" e
  unfolding sweep_context
  sweep_context-name (mapping body) e = simp document_laws
  sweep_context-name null e = refl
  sweep_context-name _ e = refl

  pub sweep_entry-name :
      (name : String) (v : Value)
      → has_name name (sweep_entry old_cluster old_user new v) ≡ has_name name v
  unfolding sweep_entry
  sweep_entry-name name (mapping e) = ap (is_text name) (sweep_context-name (get "context" e) e)
  sweep_entry-name name null = refl
  sweep_entry-name name _ = refl

  -- The entry at the position that is passed over is found as before.
  pub Finds-sweep :
      {vs : Items} {name : String} {i : ℕ} {e : Fields}
      → Finds vs name i e
      → Finds (sweep_shared_refs i old_cluster old_user new vs) name i e
  unfolding sweep_shared_refs
  Finds-sweep (first p) = first p
  Finds-sweep {name = name} (later {v = v} p f) =
      later (sweep_entry-name name v ∙ p) (Finds-sweep f)
