-- ===== src/Kube/Patch/Sharing.antt =====
-- The contexts of the renamed kubeconfig: each refers to the cluster that it referred to before.
use mathlib.Core.Path.{subst}
use tunstrap.Common.{
  ℕ, zero, suc, String, ◌≡◌, refl, sym, ap, ◌∙◌, inl, inr, Bool-cases, Bool, true, false, Option,
  some, ok, arith, if◌then◌else◌, ◌=t=◌, eq_iff, same_text,
}
use tunstrap.Kube.Document.{
  Value, Items, Fields, null, text, mapping, nil, item, get, put, items_of, fields_of, is_text,
  find_in, find_named, update_at,
}
use tunstrap.Kube.Document.Laws.{document_laws, find_named-eq}
use tunstrap.Kube.Document.Finding.{
  Finds, Absent, first, later, find_in-Finds, find_in_of_Finds, find_in_of_Absent, Finds-update_new,
}
use tunstrap.Kube.Parse.{View, parse_document}
use tunstrap.Kube.Parse.Inversion.{parse_document-Resolution}
use tunstrap.Kube.Patch.{
  patch_view, collides, sweep_body, sweep_context, sweep_entry, sweep_all, sweep_shared_refs,
  rename_context, rename_identities, identity_name,
}
use tunstrap.Kube.Patch.Reads.{assign-contexts, assign-clusters}
use tunstrap.Kube.Patch.Selecting.{cluster_in_patched, context_in_patched}
use tunstrap.Kube.Patch.Reparse.{free_of_guard, renamed, rename_to-ok}

-- Where a reference to a name points behind the renaming.
abbrev pub moved : String → String → String → String
moved old new name = if name =t= old then new else name

new_differs :
    {vs : Items} {name : String} {i : ℕ} {e : Fields} (new : String)
    → Absent vs new
    → Finds vs name i e
    → (new =t= name) ≡ false
new_differs {name = name} new a f = elim (Bool-cases (new =t= name)) [
  | inl same ↦
      let gone = find_in_of_Absent a in
      let found = find_in_of_Finds f in let eq = (eq_iff new name).0 same in cc
  | inr differs ↦ differs
]

two_names : (a b : String) (w : Value) → is_text a w ≡ true → is_text b w ≡ true → (b =t= a) ≡ true
two_names a b (text s) h k =
    let sa = (eq_iff s a).0 h in let sb = (eq_iff s b).0 k in (eq_iff b a).1 (sym sb ∙ sa)
two_names a b null h k = cc
two_names a b _ h k = cc

-- Another name than the one that is renamed is found as before.
Finds-others :
    {vs : Items} {old name : String} {at i : ℕ} {d e : Fields} (new : String)
    → Finds vs old at d
    → Finds vs name i e
    → (name =t= old) ≡ false
    → (new =t= name) ≡ false
    → Finds (update_at at (put "name" (text new)) vs) name i e
unfolding update_at
Finds-others {old = old} {name = name} new (first {e = e} p) (first q) apart fresh =
    let same = two_names old name (get "name" e) p q in cc
Finds-others new (first p) (later q f) apart fresh = later (simp document_laws fresh) f
Finds-others new (later p g) (first q) apart fresh = first q
Finds-others new (later p g) (later q f) apart fresh = later q (Finds-others new g f apart fresh)

-- A reference that is moved along finds the entry at the same place, with the same body.
Finds-moved :
    {vs : Items} {old name : String} {at i : ℕ} {d e : Fields} (new : String)
    → Finds vs old at d
    → Absent vs new
    → Finds vs name i e
    → (e' : Fields) × Finds (update_at at (put "name" (text new)) vs) (moved old new name) i e'
      × (get "cluster" e' ≡ get "cluster" e)
Finds-moved {vs = vs} {old = old} {name = name} {at = at} {i = i} {d = d} {e = e} new g a f =
    elim (Bool-cases (name =t= old)) [
      | inl same ↦
          let eq = (eq_iff name old).0 same in
          let there : find_in vs old ≡ some (i, e) =
            ap (find_in vs) (sym eq) ∙ find_in_of_Finds f in
          let both : ◌≡◌ {A = Option (ℕ × Fields)} (some (at, d)) (some (i, e)) =
            sym (find_in_of_Finds g) ∙ there in
          let at_i : at ≡ i = ground arith in
          let own = find_in-Finds vs old i e there in
          (
            put "name" (text new) e,
            rw same (
                subst
                  (λ k.
                    Finds (update_at k (put "name" (text new)) vs) new i (put "name" (text new) e))
                  (sym at_i)
                  (Finds-update_new (put "name" (text new)) new own a
                    (simp (document_laws, same_text)))),
            simp document_laws,
          )
      | inr apart ↦ (e, rw apart (Finds-others new g f apart (new_differs new a f)), refl)
    ]

text_if :
    (b : Bool) (s t : String)
    → (if b then Value.text s else Value.text t) ≡ text (if b then s else t)
text_if true s t = refl
text_if false s t = refl

-- The entry at a position.
abbrev pub entry_at : ℕ → Items → Value
entry_at i nil = null
entry_at zero (item v vs) = v
entry_at (suc i) (item v vs) = entry_at i vs

module _ (old_cluster old_user new : String) where
  -- The reference of a context to its cluster.
  abbrev KeepsCluster : Value → Fields → Type 0
  KeepsCluster w body =
      (e' : Fields) × (w ≡ mapping e')
      × (get "cluster" (fields_of (get "context" e'))
          ≡ (if is_text old_cluster (get "cluster" body) then text new else get "cluster" body))

  user_keeps :
      (b : Bool) (body : Fields)
      → get "cluster" (if b then put "user" (text new) body else body) ≡ get "cluster" body
  user_keeps true body = simp document_laws
  user_keeps false body = refl

  cluster_sets :
      (b : Bool) (body : Fields)
      → get "cluster" (if b then put "cluster" (text new) body else body)
        ≡ (if b then text new else get "cluster" body)
  cluster_sets true body = simp document_laws
  cluster_sets false body = refl

  sweep_body-cluster :
      (body : Fields)
      → get "cluster" (sweep_body old_cluster old_user new body)
        ≡ (if is_text old_cluster (get "cluster" body) then text new else get "cluster" body)
  unfolding sweep_body
  sweep_body-cluster body = user_keeps _ _ ∙ cluster_sets _ body

  sweep_entry-KeepsCluster :
      (e body : Fields)
      → get "context" e ≡ mapping body
      → KeepsCluster (sweep_entry old_cluster old_user new (mapping e)) body
  unfolding sweep_entry sweep_context
  sweep_entry-KeepsCluster e body h = rw h (
    put "context" (mapping (sweep_body old_cluster old_user new body)) e,
    refl,
    simp document_laws (sweep_body-cluster body),
  )

  sweep_all-KeepsCluster :
      (vs : Items) (j : ℕ) (e body : Fields)
      → entry_at j vs ≡ mapping e
      → get "context" e ≡ mapping body
      → KeepsCluster (entry_at j (sweep_all old_cluster old_user new vs)) body
  unfolding sweep_all
  sweep_all-KeepsCluster nil j e body h k = cc
  sweep_all-KeepsCluster (item v vs) zero e body h k = rw h (sweep_entry-KeepsCluster e body k)
  sweep_all-KeepsCluster (item v vs) (suc j) e body h k = sweep_all-KeepsCluster vs j e body h k

  rename_context-cluster :
      (ctx body : Fields)
      → get "context" ctx ≡ mapping body
      → get "cluster" body ≡ text old_cluster
      → get "cluster" (fields_of (get "context" (rename_context new ctx)))
        ≡ (if is_text old_cluster (get "cluster" body) then text new else get "cluster" body)
  unfolding rename_context
  rename_context-cluster ctx body h own = rw own (simp (document_laws, same_text))

  sweep-KeepsCluster :
      {vs : Items} {name : String} {at : ℕ} {ctx : Fields} (j : ℕ) (e body : Fields)
      → Finds vs name at ctx
      → get "cluster" (fields_of (get "context" ctx)) ≡ text old_cluster
      → entry_at j vs ≡ mapping e
      → get "context" e ≡ mapping body
      → KeepsCluster
          (entry_at j
            (sweep_shared_refs at old_cluster old_user new (update_at at (rename_context new) vs)))
          body
  unfolding sweep_shared_refs update_at
  sweep-KeepsCluster zero e body (first {e = ctx} p) own h k =
      let same : e ≡ ctx = ground arith in
      let at_ctx : get "context" ctx ≡ mapping body = ap (get "context") (sym same) ∙ k in
      let own_body : get "cluster" body ≡ text old_cluster =
        sym (ap (λ w. get "cluster" (fields_of w)) at_ctx) ∙ own in
      (rename_context new ctx, refl, rename_context-cluster ctx body at_ctx own_body)
  sweep-KeepsCluster (suc j) e body (first {vs = vs} p) own h k =
      sweep_all-KeepsCluster vs j e body h k
  sweep-KeepsCluster zero e body (later {v = v} p f) own h k =
      rw h (sweep_entry-KeepsCluster e body k)
  sweep-KeepsCluster (suc j) e body (later p f) own h k = sweep-KeepsCluster j e body f own h k

-- Every context of the kubeconfig that is handed out, selected or not, refers to the cluster that it
-- referred to before the renaming: a context at any position whose cluster was found then is still
-- a context at that position, and its reference leads to the entry at the same place, with the same
-- body.
pub contexts_keep_cluster :
    (node target : String) (doc doc' : Fields) (v : View) (port : ℕ) (tls : Option String)
    (insecure : Bool) (j : ℕ) (e body : Fields) (name : String) (i : ℕ) (cluster : Fields)
    → parse_document doc ≡ ok v
    → rename_identities node target (patch_view v port tls insecure) ≡ ok doc'
    → entry_at j (items_of (get "contexts" (patch_view v port tls insecure))) ≡ mapping e
    → get "context" e ≡ mapping body
    → get "cluster" body ≡ text name
    → find_named (get "clusters" (patch_view v port tls insecure)) name ≡ some (i, cluster)
    → (e' : Fields) × (entry_at j (items_of (get "contexts" doc')) ≡ mapping e')
      × (name' : String) × (get "cluster" (fields_of (get "context" e')) ≡ text name')
      × (cluster' : Fields) × (find_named (get "clusters" doc') name' ≡ some (i, cluster'))
      × (get "cluster" cluster' ≡ get "cluster" cluster)
unfolding rename_identities
contexts_keep_cluster node target doc doc' v port tls insecure j e body name i cluster parsed
      renamed_ok here in_e ref found =
    let (own, r) = parse_document-Resolution doc v parsed in
    let new = identity_name node target in
    let shape = rename_to-ok new doc v own r port tls insecure in
    let free : collides new (patch_view v port tls insecure) ≡ false = ground arith in
    let same : renamed doc v own r port tls insecure new ≡ doc' = ground arith in
    let names = free_of_guard new _ free in
    let in_patched =
      find_in-Finds _ _ _ _
        (sym (find_named-eq (get "clusters" (patch_view v port tls insecure)) name) ∙ found) in
    let (e', kept, points) =
      sweep-KeepsCluster v.cluster_name v.user_name new j e body
        (context_in_patched doc v own r port tls insecure) r.cluster_ref here in_e in
    let (cluster', led, same_body) =
      Finds-moved new (cluster_in_patched doc v own r port tls insecure) names.1 in_patched in
    (
      e',
      rw (← same, assign-contexts) kept,
      moved v.cluster_name new name,
      points ∙ rw ref (text_if (name =t= v.cluster_name) new name),
      cluster',
      rw (← same, find_named-eq, assign-clusters) (find_in_of_Finds led),
      same_body,
    )
