-- ===== src/Examples/Kubeconfig.antt =====
-- A kubeconfig whose current context shares its cluster with another context.
use tunstrap.Common.{String, ◌≡◌, refl, true, false, none, some, [], ◌∷◌, ok, err}
use tunstrap.Common.Decimal.{decimal}
use tunstrap.Kube.Document.{
  Value, Fields, text, seq, mapping, nil, item, end, field, get, put, or_empty, items_of, fields_of,
  find_in, find_named, update_at, update_inner, update_list,
}
use tunstrap.Kube.Parse.{
  View, name_collision, both_texts, context_refs, cluster_section, user_section, ignored_names,
  text_or_empty, string_field, parse_document,
}
use tunstrap.Kube.Patch.{
  local_endpoint, patch_body, patch_view, collides, select_identities, assign_identities,
  rename_context, sweep_body, sweep_context, sweep_entry, sweep_all, rename_to, rename_identities,
  identity_name, sweep_shared_refs,
}
use tunstrap.Kube.Patch.Sharing.{entry_at, contexts_keep_cluster}
use tunstrap.Kube.Patch.Reparse.{Leads, rename_refuses_only_collision, renamed_parses}

abbrev named : String → String → Fields → Value
named kind name body = mapping (field kind (mapping body) (field "name" (text name) end))

abbrev refs : String → String → Fields
refs cluster user = field "cluster" (text cluster) (field "user" (text user) end)

abbrev config_with : String → Fields
config_with other =
    field "contexts"
      (seq (
        item (named "context" "prod" (refs "edge" "ops"))
          (item (named "context" "default" (refs "edge" "root")) nil)))
      (field "clusters"
        (seq (
          item (named "cluster" other (field "server" (text "https://a") end)) (
            item
              (named "cluster" "edge" (
                field "server" (text "https://10.0.0.1:6443")
                  (field "certificate-authority-data" (text "CA") end)))
              nil)))
        (field "users"
          (seq (item (named "user" "root" (field "client-key-data" (text "KEY") end)) nil))
          (field "current-context" (text "default") end)))

abbrev view_of : Fields → View
view_of doc = record {
  doc = doc;
  cluster_at = 1;
  cluster_body =
      field "server" (text "https://10.0.0.1:6443")
        (field "certificate-authority-data" (text "CA") end);
  context_name = "default";
  cluster_name = "edge";
  user_name = "root";
  server = "https://10.0.0.1:6443";
  certificate_authority_data = "CA";
  client_certificate_data = "";
  client_key_data = "KEY";
  ignored_contexts = text "prod" ∷ [];
}

abbrev pub config : Fields
config = config_with "spare"

parse_config : parse_document config ≡ ok (view_of config)
unfolding parse_document get or_empty find_in find_named context_refs cluster_section user_section
    ignored_names string_field
parse_config = refl

abbrev taken : Fields
taken = config_with "tunstrap-edge1-k8s"

parse_taken : parse_document taken ≡ ok (view_of taken)
unfolding parse_document get or_empty find_in find_named context_refs both_texts cluster_section
    user_section ignored_names string_field text_or_empty
parse_taken = refl

refused_taken :
    rename_identities "edge1" "k8s" (patch_view (view_of taken) 16443 none false)
    ≡ err name_collision
unfolding rename_identities rename_to select_identities patch_view patch_body local_endpoint decimal
    collides identity_name get put or_empty find_in find_named update_at update_inner update_list
refused_taken = refl

rename_refuses_only_collision_example :
    (name_collision ≡ name_collision)
    × (collides (identity_name "edge1" "k8s") (patch_view (view_of taken) 16443 none false) ≡ true)
rename_refuses_only_collision_example =
    rename_refuses_only_collision "edge1" "k8s" taken (view_of taken) 16443 none false
      name_collision parse_taken refused_taken

-- What is handed out for `config`: the other context follows the cluster's new name.
abbrev handed_out : Fields
handed_out =
    field "contexts"
      (seq (
        item (named "context" "prod" (refs "tunstrap-edge1-k8s" "ops")) (
          item
            (named "context" "tunstrap-edge1-k8s" (refs "tunstrap-edge1-k8s" "tunstrap-edge1-k8s"))
            nil)))
      (field "clusters"
        (seq (
          item (named "cluster" "spare" (field "server" (text "https://a") end)) (
            item
              (named "cluster" "tunstrap-edge1-k8s" (
                field "server" (text "https://127.0.0.1:16443") (
                  field "certificate-authority-data" (text "CA")
                    (field "tls-server-name" (text "kubernetes") end))))
              nil)))
        (field "users"
          (seq (
            item (named "user" "tunstrap-edge1-k8s" (field "client-key-data" (text "KEY") end))
              nil))
          (field "current-context" (text "tunstrap-edge1-k8s") end)))

renamed_config :
    rename_identities "edge1" "k8s" (patch_view (view_of config) 16443 (some "kubernetes") false)
    ≡ ok handed_out
unfolding rename_identities rename_to select_identities assign_identities rename_context
    sweep_shared_refs sweep_all sweep_entry sweep_context sweep_body patch_view patch_body
    local_endpoint decimal collides identity_name get put or_empty find_in find_named update_at
    update_inner update_list
renamed_config = refl

renamed_parses_example :
    (w : View) × (parse_document handed_out ≡ ok w)
    × Leads (view_of config) w 16443 false (identity_name "edge1" "k8s")
renamed_parses_example =
    renamed_parses "edge1" "k8s" config handed_out (view_of config) 16443 (some "kubernetes") false
      parse_config renamed_config

-- The body of the context that is not selected, and the cluster that it shares.
abbrev prod : Fields
prod = refs "edge" "ops"

abbrev edge : Fields
edge =
    field "cluster"
      (mapping (
        field "server" (text "https://127.0.0.1:16443") (
          field "certificate-authority-data" (text "CA")
            (field "tls-server-name" (text "kubernetes") end))))
      (field "name" (text "edge") end)

edge_found :
    find_named (get "clusters" (patch_view (view_of config) 16443 (some "kubernetes") false)) "edge"
    ≡ some (1, edge)
unfolding patch_view patch_body local_endpoint decimal get put find_in find_named update_at
    update_inner update_list
edge_found = refl

prod_there :
    entry_at 0
      (items_of (get "contexts" (patch_view (view_of config) 16443 (some "kubernetes") false)))
    ≡ mapping (field "context" (mapping prod) (field "name" (text "prod") end))
unfolding patch_view get put update_list
prod_there = refl

contexts_keep_cluster_example :
    (e' : Fields) × (entry_at 0 (items_of (get "contexts" handed_out)) ≡ mapping e')
    × (name' : String) × (get "cluster" (fields_of (get "context" e')) ≡ text name')
    × (cluster' : Fields) × (find_named (get "clusters" handed_out) name' ≡ some (1, cluster'))
    × (get "cluster" cluster' ≡ get "cluster" edge)
unfolding get
contexts_keep_cluster_example =
    contexts_keep_cluster "edge1" "k8s" config handed_out (view_of config) 16443 (some "kubernetes")
      false 0 (field "context" (mapping prod) (field "name" (text "prod") end)) prod "edge" 1 edge
      parse_config renamed_config prod_there refl refl edge_found
