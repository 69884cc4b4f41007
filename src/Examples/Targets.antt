-- ===== src/Examples/Targets.antt =====
-- The targets of a node: one is delivered, and the remote side fails the other.
use tunstrap.Common.{
  String, ◌≡◌, ◌≢◌, refl, true, false, Bool, Option, none, some, List, [], ◌∷◌, ok, err, contains,
  All, if◌then◌else◌, ◌=t=◌,
}
use tunstrap.Common.Dict.{Dict, lookup}
use tunstrap.Common.Decimal.{decimal}
use tunstrap.Kube.Document.{
  Fields, text, mapping, get, put, pop, or_empty, find_in, find_named, update_at, update_inner,
  update_list,
}
use tunstrap.Kube.Parse.{
  View, load_root, both_texts, context_refs, cluster_section, user_section, ignored_names,
  text_or_empty, string_field, parse_document, parse_kubeconfig,
}
use tunstrap.Kube.Patch.{
  local_endpoint, patch_body, patch_view, collides, select_identities, assign_identities,
  rename_context, sweep_body, sweep_context, sweep_entry, sweep_all, rename_to, rename_identities,
  identity_name, sweep_shared_refs,
}
use tunstrap.Kube.Remote.{
  Libraries, KubeTarget, Answers, Reason, fell_back, verification_disabled, references_rewritten,
  caught, timeout, asyncssh_error, fetch_one, check_url, split_host_port, choose_tls_server_name,
  settle_tls, probe_tls, resolve_tls,
}
use tunstrap.Kube.Targets.{
  forwarded, Output, done, failed, deliver, forward_and_deliver, parse_and_forward, run_target,
  run_from, run_kube_targets, Progress, no_progress, add_round,
}
use tunstrap.Kube.Targets.Choice.{IsGuarded, run_target-IsGuarded}
use tunstrap.Kube.Targets.Delivered.{Describes, run_target-Describes}
use tunstrap.Kube.Targets.Independence.{
  output_of, asyncssh_error_ends_loop, run_kube_targets_independent,
}
use tunstrap.Kube.Targets.Account.{OpenAsDelivered, accounted, requires, run_kube_targets_accounts}
use tunstrap.Examples.Kubeconfig.{config}

abbrev libraries : Libraries
libraries = record {
  yaml = λ raw. some (mapping config);
  dump = λ doc. 7 ∷ [];
  base64 = λ raw. "Bw==";
  urlsplit = λ url.
      some (record { scheme = "https"; hostname = some "10.0.0.1"; port = some (some 6443) });
}

abbrev answers_with : List String → Answers
answers_with dns_sans = record {
  stat = ok (some 400);
  read = ok (1 ∷ 2 ∷ []);
  forward = λ host port. ok 16443;
  sans = λ port. ok (dns_sans, []);
}

-- The remote file cannot be read in time.
abbrev too_slow : Answers
too_slow = record (answers_with []) { stat = err timeout }

abbrev target : KubeTarget
target = record {
  kubeconfig_path = "/etc/rancher/k3s/k3s.yaml";
  tls_server_name = none;
  insecure_fallback = true;
  required = true;
}

abbrev output : Option String → String → Output
output tls authority = record {
  cluster_name = "tunstrap-edge1-k8s";
  context_name = "tunstrap-edge1-k8s";
  local_port = 16443;
  endpoint = "https://127.0.0.1:16443";
  tls_server_name = tls;
  certificate_authority_data = authority;
  client_certificate_data = "";
  client_key_data = "KEY";
  content_b64 = "Bw==";
  path = none;
}

abbrev prod_disclosed : Reason × Bool
prod_disclosed = (references_rewritten (text "prod"), false)

run_insecure :
    run_target libraries "edge1" "k8s" target (answers_with [])
    ≡ ok (
        done
          (forwarded ∷ [])
          (output none "")
          ((verification_disabled, false) ∷ prod_disclosed ∷ []))
unfolding run_target fetch_one parse_and_forward parse_kubeconfig load_root parse_document
    context_refs both_texts cluster_section user_section ignored_names string_field text_or_empty
    split_host_port check_url forward_and_deliver resolve_tls probe_tls choose_tls_server_name
    settle_tls deliver rename_identities rename_to select_identities assign_identities
    rename_context sweep_shared_refs sweep_all sweep_entry sweep_context sweep_body patch_view
    patch_body local_endpoint decimal collides identity_name get put pop or_empty find_in find_named
    update_at update_inner update_list
run_insecure = refl

run_fell_back :
    run_target libraries "edge1" "k8s" target (answers_with ("kubernetes" ∷ []))
    ≡ ok (
        done
          (forwarded ∷ [])
          (output (some "kubernetes") "CA")
          ((fell_back "kubernetes", false) ∷ prod_disclosed ∷ []))
unfolding run_target fetch_one parse_and_forward parse_kubeconfig load_root parse_document
    context_refs both_texts cluster_section user_section ignored_names string_field text_or_empty
    split_host_port check_url forward_and_deliver resolve_tls probe_tls choose_tls_server_name
    settle_tls deliver rename_identities rename_to select_identities assign_identities
    rename_context sweep_shared_refs sweep_all sweep_entry sweep_context sweep_body patch_view
    patch_body local_endpoint decimal collides identity_name get put pop or_empty find_in find_named
    update_at update_inner update_list
run_fell_back = refl

run_too_slow :
    run_target libraries "edge1" "late" target too_slow
    ≡ ok (failed [] ((caught timeout, true) ∷ []))
unfolding run_target fetch_one
run_too_slow = refl

run_target-IsGuarded_example : IsGuarded libraries target (answers_with []) (output none "")
run_target-IsGuarded_example =
    run_target-IsGuarded libraries "edge1" "k8s" target (answers_with []) (output none "")
      (forwarded ∷ []) ((verification_disabled, false) ∷ prod_disclosed ∷ []) run_insecure

run_target-Describes_example :
    (doc : Fields) × ((output (some "kubernetes") "CA").content_b64
      ≡ libraries.base64 (libraries.dump doc))
    × (w : View) × (parse_document doc ≡ ok w)
    × Describes libraries "edge1" "k8s" (output (some "kubernetes") "CA") w
run_target-Describes_example =
    run_target-Describes libraries "edge1" "k8s" target (answers_with ("kubernetes" ∷ []))
      (output (some "kubernetes") "CA") (forwarded ∷ [])
      ((fell_back "kubernetes", false) ∷ prod_disclosed ∷ []) run_fell_back

abbrev targets : Dict KubeTarget
targets = ("k8s", target) ∷ ("late", target) ∷ []

abbrev answers : String → Answers
answers name = if name =t= "late" then too_slow else answers_with ("kubernetes" ∷ [])

abbrev after_both : Progress
after_both = add_round "edge1" "late" target (failed [] ((caught timeout, true) ∷ [])) (
    add_round "edge1" "k8s" target
      (done (forwarded ∷ []) (output (some "kubernetes") "CA")
        ((fell_back "kubernetes", false) ∷ prod_disclosed ∷ []))
      no_progress)

run_both : run_kube_targets libraries "edge1" answers targets ≡ ok after_both
unfolding run_kube_targets run_from
run_both = rw (run_fell_back, run_too_slow)

run_kube_targets_accounts_example :
    OpenAsDelivered after_both
    × All (λ (name, t). accounted after_both name t.required ≡ true) targets
    × ((name : String)
        → contains after_both.required_failures name ≡ true
        → requires targets name ≡ true)
run_kube_targets_accounts_example =
    run_kube_targets_accounts libraries "edge1" answers targets after_both run_both

run_kube_targets_independent_example :
    All
      (λ (name, t).
        lookup name after_both.outputs
        ≡ output_of (run_target libraries "edge1" name t (answers name)))
      targets
run_kube_targets_independent_example =
    run_kube_targets_independent libraries "edge1" answers targets after_both run_both refl

-- The second target, which is not required, has no kubeconfig on the remote side.
abbrev optional_targets : Dict KubeTarget
optional_targets = ("k8s", target) ∷ ("gone", record target { required = false }) ∷ []

abbrev answers_but_one : String → Answers
answers_but_one name =
    if name =t= "gone"
    then record too_slow { stat = err asyncssh_error }
    else answers_with ("kubernetes" ∷ [])

gone_raises : fetch_one (answers_but_one "gone") ≡ err asyncssh_error
unfolding fetch_one
gone_raises = refl

asyncssh_error_ends_loop_example :
    run_kube_targets libraries "edge1" answers_but_one optional_targets ≢ ok after_both
asyncssh_error_ends_loop_example =
    asyncssh_error_ends_loop libraries "edge1" answers_but_one optional_targets "gone" after_both
      refl gone_raises
