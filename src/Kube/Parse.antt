-- ===== src/Kube/Parse.antt =====
-- `parse_kubeconfig` of tunstrap/kube.py and the functions it calls. The YAML library is a
-- parameter: it gives a value, or fails. The names that `_ignored_contexts` renders by `str` stay
-- values, and an error is the place that raises it, without the names in its message.
pub mod Inversion
use tunstrap.Common.{
  ℕ, String, Bool, true, false, not, ◌||◌, Option, none, some, List, [], ◌∷◌, Result, ok, err,
  ◌>>=◌, require, if◌then◌else◌, ◌=t=◌,
}
use tunstrap.Kube.Document.{
  Value, Items, Fields, null, scalar, text, seq, mapping, nil, item, end, field, get, truthy,
  or_empty, items_of, fields_of, is_text, find_named,
}

pub data KubeError : Type 0 where
  not_yaml root_not_mapping no_current_context context_not_found missing_ref : KubeError
  ref_not_text cluster_not_found no_server user_not_found : KubeError
  field_not_text : String → KubeError
  current_not_text body_not_mapping cluster_ref_not_text user_ref_not_text : KubeError
  name_collision cluster_missing user_missing : KubeError
  url_malformed url_not_https url_no_host url_bad_port : KubeError

abbrev pub Parsed : Type 0 → Type 0
Parsed = Result KubeError

-- `KubeconfigView`; `cluster_at` is the position of the entry that holds `cluster_body`.
pub record View : Type 0 where
  pub doc : Fields
  pub cluster_at : ℕ
  pub cluster_body : Fields
  pub context_name : String
  pub cluster_name : String
  pub user_name : String
  pub server : String
  pub certificate_authority_data : String
  pub client_certificate_data : String
  pub client_key_data : String
  pub ignored_contexts : List Value

unfoldable pub load_root : Option Value → Parsed Fields
load_root none = err not_yaml
load_root (some (mapping f)) = ok f
load_root (some _) = err root_not_mapping

-- A text that is not empty.
abbrev pub filled : Value → Option String
filled (text s) = if s =t= "" then none else some s
filled _ = none

-- The two tests on the names that a context refers to, and the names.
unfoldable pub both_texts : Value → Value → Parsed (String × String)
both_texts c u = if not (truthy c) || not (truthy u) then err missing_ref else elim c [
  | text cluster ↦ elim u [ text user ↦ ok (cluster, user) | _ ↦ err ref_not_text ]
  | _ ↦ err ref_not_text
]

unfoldable pub context_refs : Value → String → Parsed (String × String)
unfolding both_texts
context_refs contexts current = elim (find_named contexts current) [
  | none ↦ err context_not_found
  | some (i, ctx) ↦
      let body = fields_of (get "context" ctx) in both_texts (get "cluster" body) (get "user" body)
]

pub record ClusterSection : Type 0 where
  pub position : ℕ
  pub body : Fields
  pub server : String

unfoldable pub cluster_section : Fields → String → Parsed ClusterSection
cluster_section doc name = elim (find_named (or_empty (get "clusters" doc)) name) [
  | none ↦ err cluster_not_found
  | some (i, cluster) ↦
      let body = fields_of (get "cluster" cluster) in
      elim (filled (get "server" body)) [
        | none ↦ err no_server
        | some server ↦ ok (record { position = i; body = body; server = server })
      ]
]

unfoldable pub user_section : Fields → String → Parsed Fields
user_section doc name = elim (find_named (or_empty (get "users" doc)) name) [
  | none ↦ err user_not_found
  | some (i, user) ↦ ok (fields_of (get "user" user))
]

unfoldable pub ignored_names : Items → String → List Value
ignored_names nil current = []
ignored_names (item (mapping c) vs) current =
    let rest = ignored_names vs current in
    if is_text current (get "name" c) then rest else get "name" c ∷ rest
ignored_names (item v vs) current = ignored_names vs current

unfoldable pub text_or_empty : String → Value → Parsed String
text_or_empty name null = ok ""
text_or_empty name (text s) = ok s
text_or_empty name _ = err (field_not_text name)

unfoldable pub string_field : Fields → String → Parsed String
unfolding text_or_empty
string_field body name = text_or_empty name (get name body)

-- `parse_kubeconfig` behind `_load_root`
unfoldable pub parse_document : Fields → Parsed View
parse_document doc = do
  current ← require (filled (get "current-context" doc)) no_current_context
  let contexts = items_of (get "contexts" doc)
  refs ← context_refs (seq contexts) current
  cluster ← cluster_section doc refs.0
  user ← user_section doc refs.1
  authority ← string_field cluster.body "certificate-authority-data"
  certificate ← string_field user "client-certificate-data"
  key ← string_field user "client-key-data"
  ok (record {
    doc = doc;
    cluster_at = cluster.position;
    cluster_body = cluster.body;
    context_name = current;
    cluster_name = refs.0;
    user_name = refs.1;
    server = cluster.server;
    certificate_authority_data = authority;
    client_certificate_data = certificate;
    client_key_data = key;
    ignored_contexts = ignored_names contexts current;
  })

unfoldable pub parse_kubeconfig : (List ℕ → Option Value) → List ℕ → Parsed View
unfolding load_root parse_document
parse_kubeconfig yaml raw = do root ← load_root (yaml raw); parse_document root
