-- ===== src/Kube/Patch.antt =====
-- `patch_view` and `rename_identities` of tunstrap/kube.py: the assignments to the parsed document,
-- as functions from the document before to the document after.
pub mod Reads
pub mod Selecting
pub mod Reparse
pub mod Sharing
pub mod Verifying
use tunstrap.Common.{
  ℕ, zero, suc, String, ◌<>◌, Bool, true, false, ◌||◌, Option, none, some, Result, ok, err, ◌>>=◌,
  ◌>>◌, require, refuse_if, if◌then◌else◌, ◌=t=◌,
}
use tunstrap.Common.Decimal.{decimal}
use tunstrap.Kube.Document.{
  Value, Items, Fields, null, scalar, text, seq, mapping, nil, item, get, put, pop, or_empty,
  items_of, is_text, find_named, update_at, update_inner, update_list,
}
use tunstrap.Kube.Parse.{
  Parsed, View, current_not_text, context_not_found, body_not_mapping, cluster_ref_not_text,
  user_ref_not_text, name_collision, cluster_missing, user_missing,
}

unfoldable pub local_endpoint : ℕ → String
local_endpoint port = "https://127.0.0.1:" <> decimal port

-- The assignments of `patch_view` to the cluster's body.
unfoldable pub patch_body : ℕ → Option String → Bool → Fields → Fields
patch_body port tls insecure body =
    let body1 = put "server" (text (local_endpoint port)) body in
    if insecure
    then pop "tls-server-name" (
        pop "certificate-authority-data"
          (put "insecure-skip-tls-verify" (scalar true "True") body1))
    else elim tls [ none ↦ body1 | some name ↦ put "tls-server-name" (text name) body1 ]

unfoldable pub patch_view : View → ℕ → Option String → Bool → Fields
patch_view v port tls insecure =
    update_list "clusters"
      (update_at v.cluster_at (update_inner "cluster" (patch_body port tls insecure))) v.doc

-- The two tests on the body of another context.
unfoldable pub sweep_body : String → String → String → Fields → Fields
sweep_body old_cluster old_user new body =
    let body1 =
      if is_text old_cluster (get "cluster" body) then put "cluster" (text new) body else body in
    if is_text old_user (get "user" body1) then put "user" (text new) body1 else body1

-- A body that is no mapping is left alone.
unfoldable pub sweep_context : String → String → String → Value → Fields → Fields
unfolding sweep_body
sweep_context old_cluster old_user new (mapping body) e =
    put "context" (mapping (sweep_body old_cluster old_user new body)) e
sweep_context old_cluster old_user new _ e = e

-- One round of the loop of `_sweep_shared_refs`.
unfoldable pub sweep_entry : String → String → String → Value → Value
unfolding sweep_context
sweep_entry old_cluster old_user new (mapping e) =
    mapping (sweep_context old_cluster old_user new (get "context" e) e)
sweep_entry old_cluster old_user new v = v

unfoldable pub sweep_all : String → String → String → Items → Items
unfolding sweep_entry
sweep_all old_cluster old_user new nil = nil
sweep_all old_cluster old_user new (item v vs) =
    item (sweep_entry old_cluster old_user new v) (sweep_all old_cluster old_user new vs)

-- `_sweep_shared_refs`: every entry but the one at the given position, `ctx_entry`.
unfoldable pub sweep_shared_refs : ℕ → String → String → String → Items → Items
unfolding sweep_all
sweep_shared_refs at old_cluster old_user new nil = nil
sweep_shared_refs zero old_cluster old_user new (item v vs) =
    item v (sweep_all old_cluster old_user new vs)
sweep_shared_refs (suc at) old_cluster old_user new (item v vs) =
    item (sweep_entry old_cluster old_user new v) (sweep_shared_refs at old_cluster old_user new vs)

unfoldable pub identity_name : String → String → String
identity_name node target = "tunstrap-" <> node <> "-" <> target

abbrev pub is_found : Option (ℕ × Fields) → Bool
is_found none = false
is_found (some _) = true

-- What the guards of `rename_identities` find: positions, and the two old names.
pub record Selected : Type 0 where
  pub context_at : ℕ
  pub cluster_at : ℕ
  pub user_at : ℕ
  pub old_cluster : String
  pub old_user : String

abbrev pub text_of : Value → Option String
text_of (text s) = some s
text_of _ = none

abbrev pub mapping_of : Value → Option Fields
mapping_of (mapping f) = some f
mapping_of _ = none

-- The reserved-namespace guard.
unfoldable pub collides : String → Fields → Bool
collides new doc =
    is_found (find_named (or_empty (get "contexts" doc)) new)
    || is_found (find_named (or_empty (get "clusters" doc)) new)
    || is_found (find_named (or_empty (get "users" doc)) new)

-- The guards, in the order of the source, before any assignment.
unfoldable pub select_identities : String → Fields → Parsed Selected
select_identities new doc = do
  current ← require (text_of (get "current-context" doc)) current_not_text
  ctx ← require (find_named (seq (items_of (get "contexts" doc))) current) context_not_found
  body ← require (mapping_of (get "context" ctx.1)) body_not_mapping
  old_cluster ← require (text_of (get "cluster" body)) cluster_ref_not_text
  old_user ← require (text_of (get "user" body)) user_ref_not_text
  refuse_if (collides new doc) name_collision
  cluster ← require (find_named (or_empty (get "clusters" doc)) old_cluster) cluster_missing
  user ← require (find_named (or_empty (get "users" doc)) old_user) user_missing
  ok (record {
    context_at = ctx.0;
    cluster_at = cluster.0;
    user_at = user.0;
    old_cluster = old_cluster;
    old_user = old_user;
  })

-- `ctx_entry["name"]` and the two references in its body
unfoldable pub rename_context : String → Fields → Fields
rename_context new ctx =
    update_inner "context" (λ body. put "user" (text new) (put "cluster" (text new) body))
      (put "name" (text new) ctx)

-- The assignments behind the guards, in the order of the source.
unfoldable pub assign_identities : String → Selected → Fields → Fields
unfolding rename_context
assign_identities new s doc =
    let doc1 = update_list "contexts" (update_at s.context_at (rename_context new)) doc in
    let doc2 = update_list "clusters" (update_at s.cluster_at (put "name" (text new))) doc1 in
    let doc3 = update_list "users" (update_at s.user_at (put "name" (text new))) doc2 in
    let doc4 = put "current-context" (text new) doc3 in
    update_list "contexts" (sweep_shared_refs s.context_at s.old_cluster s.old_user new) doc4

-- `rename_identities`: the renamed document, for a new name.
unfoldable pub rename_to : String → Fields → Parsed Fields
unfolding select_identities assign_identities
rename_to new doc = do selected ← select_identities new doc; ok (assign_identities new selected doc)

unfoldable pub rename_identities : String → String → Fields → Parsed Fields
unfolding identity_name rename_to
rename_identities node target doc = rename_to (identity_name node target) doc
