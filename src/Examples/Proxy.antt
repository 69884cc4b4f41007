-- ===== src/Examples/Proxy.antt =====
-- Command lines of the OpenTofu proxy.
use tunstrap.Common.{String, ◌≡◌, refl, ◌↔◌, true, false, some, List, [], ◌∷◌}
use tunstrap.Tofu.{
  is_help, is_global_value_flag, is_flag, is_plan_value_flag, is_plan_filename, ends_with, is_blank,
  has_plan_input, find_subcommand_index, saved_plan_warning, main,
}
use tunstrap.Tofu.Grammar.{Subcommand, find_subcommand_index_iff}
use tunstrap.Tofu.Decision.{OpensTunnel, Contacts, command_of, main_tunnels_iff}

abbrev chdir_plan : List String
chdir_plan = "-chdir" ∷ "init" ∷ "plan" ∷ []

abbrev apply_saved : List String
apply_saved = "apply" ∷ "-target" ∷ "a.tfplan" ∷ "b.tfplan" ∷ []

-- The directory is called like a subcommand that bypasses the tunnel.
chdir_plan_found : find_subcommand_index chdir_plan ≡ some ("plan", 2)
unfolding find_subcommand_index is_help is_global_value_flag is_flag
chdir_plan_found = refl

apply_saved_warns : saved_plan_warning apply_saved ≡ true
unfolding saved_plan_warning is_help is_global_value_flag is_flag has_plan_input is_plan_value_flag
    is_plan_filename ends_with
apply_saved_warns = refl

find_subcommand_index_iff_example :
    (find_subcommand_index chdir_plan ≡ some ("plan", 2)) ↔ Subcommand chdir_plan "plan" 2
find_subcommand_index_iff_example = find_subcommand_index_iff chdir_plan "plan" 2

main_tunnels_iff_example :
    (OpensTunnel (main "{}" chdir_plan) ↔ ((is_blank "{}" ≡ false) × Contacts chdir_plan))
    × (command_of (main "{}" chdir_plan) ≡ "tofu" ∷ chdir_plan)
main_tunnels_iff_example = main_tunnels_iff "{}" chdir_plan
