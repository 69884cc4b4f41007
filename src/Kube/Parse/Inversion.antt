-- ===== src/Kube/Parse/Inversion.antt =====
-- What a successful parse has resolved, and that resolving it is enough to parse.
use mathlib.Core.Path.{subst}
use tunstrap.Common.{
  ℕ, String, ◌≡◌, sym, ap, ◌∙◌, false, Option, none, some, ok, require, >>=-eq-ok, arith, ◌=t=◌,
}
use tunstrap.Kube.Document.{Value, Fields, text, seq, get, items_of, fields_of, find_named}
use tunstrap.Kube.Document.Laws.{find_named-or_empty, find_named-items_of}
use tunstrap.Kube.Parse.{
  View, ClusterSection, filled, both_texts, context_refs, cluster_section, user_section,
  string_field, parse_document, no_current_context, ignored_names,
}

abbrev pub context_body : Fields → Fields
context_body ctx = fields_of (get "context" ctx)

abbrev pub cluster_body : Fields → Fields
cluster_body cluster = fields_of (get "cluster" cluster)

abbrev pub user_body : Fields → Fields
user_body user = fields_of (get "user" user)

-- The entries that the current context leads to, with what the guards of the parse have checked.
pub record Resolution (doc : Fields) (v : View) : Type 0 where
  pub context_at : ℕ
  pub context : Fields
  pub cluster : Fields
  pub user_at : ℕ
  pub user : Fields
  pub current : get "current-context" doc ≡ text v.context_name
  pub current_filled : (v.context_name =t= "") ≡ false
  pub context_found : find_named (get "contexts" doc) v.context_name ≡ some (context_at, context)
  pub cluster_ref : get "cluster" (context_body context) ≡ text v.cluster_name
  pub cluster_filled : (v.cluster_name =t= "") ≡ false
  pub user_ref : get "user" (context_body context) ≡ text v.user_name
  pub user_filled : (v.user_name =t= "") ≡ false
  pub cluster_found : find_named (get "clusters" doc) v.cluster_name ≡ some (v.cluster_at, cluster)
  pub server : get "server" (cluster_body cluster) ≡ text v.server
  pub server_filled : (v.server =t= "") ≡ false
  pub user_found : find_named (get "users" doc) v.user_name ≡ some (user_at, user)
  pub authority :
      string_field (cluster_body cluster) "certificate-authority-data"
      ≡ ok v.certificate_authority_data
  pub certificate :
      string_field (user_body user) "client-certificate-data" ≡ ok v.client_certificate_data
  pub key : string_field (user_body user) "client-key-data" ≡ ok v.client_key_data

filled-some : (v : Value) (s : String) → filled v ≡ some s → (v ≡ text s) × ((s =t= "") ≡ false)
filled-some v s h = ground arith

both_texts-ok :
    (c u : Value) (r : String × String)
    → both_texts c u ≡ ok r
    → (c ≡ text r.0) × ((r.0 =t= "") ≡ false) × (u ≡ text r.1) × ((r.1 =t= "") ≡ false)
unfolding both_texts
both_texts-ok c u r h = ground arith

context_refs-ok :
    (cs : Value) (current : String) (r : String × String)
    → context_refs cs current ≡ ok r
    → (found : ℕ × Fields) × (find_named cs current ≡ some found)
      × (both_texts (get "cluster" (context_body found.1)) (get "user" (context_body found.1))
          ≡ ok r)
unfolding context_refs
context_refs-ok cs current r h = ground arith

cluster_section-ok :
    (doc : Fields) (name : String) (r : ClusterSection)
    → cluster_section doc name ≡ ok r
    → (found : ℕ × Fields) × (find_named (get "clusters" doc) name ≡ some found)
      × (found.0 ≡ r.position)
      × (cluster_body found.1 ≡ r.body)
      × (filled (get "server" r.body) ≡ some r.server)
unfolding cluster_section
cluster_section-ok doc name r h = ground (arith, find_named-or_empty (get "clusters" doc) name)

user_section-ok :
    (doc : Fields) (name : String) (r : Fields)
    → user_section doc name ≡ ok r
    → (found : ℕ × Fields) × (find_named (get "users" doc) name ≡ some found)
      × (user_body found.1 ≡ r)
unfolding user_section
user_section-ok doc name r h = ground (arith, find_named-or_empty (get "users" doc) name)

pub require-ok {ℓ κ} :
    {E : Type ℓ} {A : Type κ} (x : Option A) (e : E) {a : A} → require x e ≡ ok a → x ≡ some a
require-ok none e h = cc
require-ok (some b) e h = ground arith

pub parse_document-Resolution :
    (doc : Fields) (v : View) → parse_document doc ≡ ok v → (v.doc ≡ doc) × Resolution doc v
unfolding parse_document
parse_document-Resolution doc v h =
    let contexts = seq (items_of (get "contexts" doc)) in
    let (current, h0, h1) =
      >>=-eq-ok (require (filled (get "current-context" doc)) no_current_context) _ h in
    let (refs, hr, h2) = >>=-eq-ok (context_refs contexts current) _ h1 in
    let (cl, hcl, h3) = >>=-eq-ok (cluster_section doc refs.0) _ h2 in
    let (us, hus, h4) = >>=-eq-ok (user_section doc refs.1) _ h3 in
    let (ca, hca, h5) = >>=-eq-ok (string_field cl.body "certificate-authority-data") _ h4 in
    let (cert, hcert, h6) = >>=-eq-ok (string_field us "client-certificate-data") _ h5 in
    let (key, hkey, h7) = >>=-eq-ok (string_field us "client-key-data") _ h6 in
    let (current_text, current_filled) =
      filled-some (get "current-context" doc) current (require-ok _ _ h0) in
    let (ctx, ctx_found, ctx_refs) = context_refs-ok contexts current refs hr in
    let (c_text, c_filled, u_text, u_filled) = both_texts-ok _ _ refs ctx_refs in
    let (cluster, cl_found, cl_at, cl_body, cl_server) = cluster_section-ok doc refs.0 cl hcl in
    let (server_text, server_filled) = filled-some (get "server" cl.body) cl.server cl_server in
    let (user, us_found, us_body) = user_section-ok doc refs.1 us hus in
    let built : View = record {
      doc = doc;
      cluster_at = cl.position;
      cluster_body = cl.body;
      context_name = current;
      cluster_name = refs.0;
      user_name = refs.1;
      server = cl.server;
      certificate_authority_data = ca;
      client_certificate_data = cert;
      client_key_data = key;
      ignored_contexts = ignored_names (items_of (get "contexts" doc)) current;
    } in
    let same : built ≡ v = ground arith in
    let resolved : Resolution doc built = record {
      context_at = ctx.0;
      context = ctx.1;
      cluster = cluster.1;
      user_at = user.0;
      user = user.1;
      current = current_text;
      current_filled = current_filled;
      context_found = sym (find_named-items_of (get "contexts" doc) current) ∙ ctx_found;
      cluster_ref = c_text;
      cluster_filled = c_filled;
      user_ref = u_text;
      user_filled = u_filled;
      cluster_found = ground arith;
      server = rw cl_body server_text;
      server_filled = server_filled;
      user_found = us_found;
      authority = rw cl_body hca;
      certificate = rw us_body hcert;
      key = rw us_body hkey;
    } in
    (ap (λ (w : View). w.doc) (sym same), subst (Resolution doc) same resolved)

-- The other way round: the view with the fields that follow from the document.
abbrev pub completed : (doc : Fields) (v : View) → Resolution doc v → View
completed doc v r = record v {
  doc = doc;
  cluster_body = cluster_body r.cluster;
  ignored_contexts = ignored_names (items_of (get "contexts" doc)) v.context_name;
}

context_refs-found :
    (cs : Value) (current cluster user : String) (i : ℕ) (ctx : Fields)
    → find_named cs current ≡ some (i, ctx)
    → get "cluster" (context_body ctx) ≡ text cluster
    → (cluster =t= "") ≡ false
    → get "user" (context_body ctx) ≡ text user
    → (user =t= "") ≡ false
    → context_refs cs current ≡ ok (cluster, user)
unfolding context_refs
context_refs-found cs current cluster user i ctx found c cf u uf = ground arith

cluster_section-found :
    (doc : Fields) (name server : String) (i : ℕ) (cluster : Fields)
    → find_named (get "clusters" doc) name ≡ some (i, cluster)
    → get "server" (cluster_body cluster) ≡ text server
    → (server =t= "") ≡ false
    → cluster_section doc name
      ≡ ok (record { position = i; body = cluster_body cluster; server = server })
unfolding cluster_section
cluster_section-found doc name server i cluster found s sf =
    ground (arith, find_named-or_empty (get "clusters" doc) name)

user_section-found :
    (doc : Fields) (name : String) (i : ℕ) (user : Fields)
    → find_named (get "users" doc) name ≡ some (i, user)
    → user_section doc name ≡ ok (user_body user)
unfolding user_section
user_section-found doc name i user found =
    ground (arith, find_named-or_empty (get "users" doc) name)

pub Resolution-parse_document :
    (doc : Fields) (v : View) (r : Resolution doc v) → parse_document doc ≡ ok (completed doc v r)
unfolding parse_document
Resolution-parse_document doc v r = rw (
  r.current,
  r.current_filled,
  context_refs-found (seq (items_of (get "contexts" doc))) _ _ _ _ _
      (find_named-items_of (get "contexts" doc) _ ∙ r.context_found) r.cluster_ref r.cluster_filled
      r.user_ref r.user_filled,
  cluster_section-found doc _ _ _ _ r.cluster_found r.server r.server_filled,
  user_section-found doc _ _ _ r.user_found,
  r.authority,
  r.certificate,
  r.key,
)
