-- ===== src/Tofu/Decision.antt =====
-- What the proxy decides: when it opens a tunnel, and that `-chdir DIR` changes no decision.
use tunstrap.Common.{
  ℕ, suc, ◌+◌, String, ◌≡◌, refl, sym, ◌∙◌, ◌↔◌, inl, inr, Bool-cases, Bool, true, false, Option,
  none, some, List, [], ◌∷◌, arith, contains, drop,
}
use tunstrap.Tofu.{
  Action, exec, tunnel, bypass_commands, is_help, is_global_value_flag, is_blank, find_from,
  find_subcommand_index, should_bypass, warns, saved_plan_warning, main,
}
use tunstrap.Tofu.Grammar.{Subcommand, find_subcommand_index_iff}

abbrev moved : ℕ → Option (String × ℕ) → Option (String × ℕ)
moved m none = none
moved m (some (tok, i)) = some (tok, i + m)

-- Starting the index later moves the index that is found, and nothing else.
find_from-moved :
    (argv : List String) (k m : ℕ) → find_from argv (k + m) ≡ moved m (find_from argv k)
unfolding find_from
find_from-moved [] k m = refl
find_from-moved (tok ∷ []) k m = ground arith
find_from-moved (tok ∷ next ∷ rest) k m =
    let later : k + m + 2 ≡ k + 2 + m = omega arith in
    let next_one : k + m + 1 ≡ k + 1 + m = omega arith in
    rw (later, next_one)
      (ground (arith, find_from-moved rest (k + 2) m, find_from-moved (next ∷ rest) (k + 1) m))

find_from-chdir :
    (dir : String) (argv : List String) (k : ℕ)
    → find_from ("-chdir" ∷ dir ∷ argv) k ≡ find_from argv (k + 2)
unfolding find_from is_help is_global_value_flag
find_from-chdir dir argv k = refl

abbrev warns_at : List String → Option (String × ℕ) → Bool
warns_at argv none = false
warns_at argv (some (tok, i)) = warns tok (drop (i + 1) argv)

warns_at-chdir :
    (dir : String) (argv : List String) (r : Option (String × ℕ))
    → warns_at ("-chdir" ∷ dir ∷ argv) (moved 2 r) ≡ warns_at argv r
warns_at-chdir dir argv none = refl
warns_at-chdir dir argv (some (tok, i)) =
    let further : i + 2 + 1 ≡ suc (suc (i + 1)) = omega arith in rw further

abbrev bypasses : Option (String × ℕ) → Bool
bypasses none = true
bypasses (some (tok, i)) = contains bypass_commands tok

bypasses-moved : (m : ℕ) (r : Option (String × ℕ)) → bypasses (moved m r) ≡ bypasses r
bypasses-moved m none = refl
bypasses-moved m (some (tok, i)) = refl

should_bypass-eq : (argv : List String) → should_bypass argv ≡ bypasses (find_from argv 0)
unfolding should_bypass
should_bypass-eq argv = ground arith

saved_plan_warning-eq :
    (argv : List String) → saved_plan_warning argv ≡ warns_at argv (find_from argv 0)
unfolding saved_plan_warning
saved_plan_warning-eq argv = ground arith

-- A leading `-chdir DIR`, whatever the directory is called, changes neither the decision to bypass
-- the tunnel nor the warning about saved plans.
pub chdir_is_transparent :
    (dir : String) (argv : List String)
    → (should_bypass ("-chdir" ∷ dir ∷ argv) ≡ should_bypass argv)
      × (saved_plan_warning ("-chdir" ∷ dir ∷ argv) ≡ saved_plan_warning argv)
chdir_is_transparent dir argv = (
  rw (should_bypass-eq, should_bypass-eq argv, find_from-chdir, find_from-moved argv 0 2)
      (bypasses-moved 2 (find_from argv 0)),
  rw (saved_plan_warning-eq, saved_plan_warning-eq argv, find_from-chdir, find_from-moved argv 0 2)
      (warns_at-chdir dir argv (find_from argv 0)),
)

abbrev pub OpensTunnel : Action → Type 0
OpensTunnel (exec command) = ⊥
OpensTunnel (tunnel warned input output command) = Unit

abbrev pub command_of : Action → List String
command_of (exec command) = command
command_of (tunnel warned input output command) = command

abbrev pub Contacts : List String → Type 0
Contacts argv =
    (tok : String) × (i : ℕ) × Subcommand argv tok i × (contains bypass_commands tok ≡ false)

should_bypass-index :
    (argv : List String) → should_bypass argv ≡ bypasses (find_subcommand_index argv)
unfolding should_bypass
should_bypass-index argv = ground arith

contact_cases :
    (argv : List String) (r : Option (String × ℕ))
    → find_subcommand_index argv ≡ r
    → (bypasses r ≡ false) ↔ Contacts argv
contact_cases argv none e =
    (λ h. cc, λ (tok, i, s, b). cc (e, (find_subcommand_index_iff argv tok i).1 s))
contact_cases argv (some (tok, i)) e = (
  λ h. (tok, i, (find_subcommand_index_iff argv tok i).0 e, h),
  λ (t, j, s, b).
      let same : ◌≡◌ {A = Option (String × ℕ)} (some (tok, i)) (some (t, j)) =
        sym e ∙ (find_subcommand_index_iff argv t j).1 s in
      let same_tok : tok ≡ t = ground arith in rw same_tok b,
)

bypass_or_contact : (argv : List String) → (should_bypass argv ≡ false) ↔ Contacts argv
bypass_or_contact argv =
    rw should_bypass-index (contact_cases argv (find_subcommand_index argv) refl)

-- The proxy opens a tunnel exactly when `TUNSTRAP_INPUT` holds more than white space and the command
-- line has a subcommand that is none of the four that never contact the cluster. Either way `tofu`
-- gets the arguments as they were given.
pub main_tunnels_iff :
    (raw : String) (argv : List String)
    → (OpensTunnel (main raw argv) ↔ ((is_blank raw ≡ false) × Contacts argv))
      × (command_of (main raw argv) ≡ "tofu" ∷ argv)
unfolding main
main_tunnels_iff raw argv = elim (Bool-cases (is_blank raw)) [
  | inl blank ↦ rw blank ((λ h. absurd h, λ (h, c). cc), refl)
  | inr given ↦ rw given (elim (Bool-cases (should_bypass argv)) [
    | inl away ↦ rw away ((λ h. absurd h, λ (h, c). cc (away, (bypass_or_contact argv).1 c)), refl)
    | inr in_use ↦ rw in_use ((λ h. (refl, (bypass_or_contact argv).0 in_use), λ h. tt), refl)
  ])
]
