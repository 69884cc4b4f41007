-- ===== src/Tofu/Grammar.antt =====
-- The command lines of `tofu` as a relation, and `_find_subcommand_index` as its decision.
use mathlib.Core.Path.{subst₂}
use tunstrap.Common.{
  inl, inr, Bool-cases, ◌∙◌, ℕ, zero, suc, ◌+◌, String, ◌≡◌, ◌↔◌, true, false, Option, none, some,
  List, [], ◌∷◌, arith,
}
use tunstrap.Tofu.{is_help, is_global_value_flag, is_flag, find_from, find_subcommand_index}

-- `Subcommand argv tok i`: behind `i` arguments that are global flags and their values, `tok` is the
-- subcommand of `argv`.
pub data Subcommand : List String → String → ℕ → Type 0 where
  here :
      {tok : String} {rest : List String}
      → is_help tok ≡ false
      → is_global_value_flag tok ≡ false
      → is_flag tok ≡ false
      → Subcommand (tok ∷ rest) tok zero
  value :
      {flag dir tok : String} {rest : List String} {i : ℕ}
      → is_help flag ≡ false
      → is_global_value_flag flag ≡ true
      → Subcommand rest tok i
      → Subcommand (flag ∷ dir ∷ rest) tok (suc (suc i))
  bare :
      {flag tok : String} {rest : List String} {i : ℕ}
      → is_help flag ≡ false
      → is_global_value_flag flag ≡ false
      → is_flag flag ≡ true
      → Subcommand rest tok i
      → Subcommand (flag ∷ rest) tok (suc i)

abbrev Found : List String → ℕ → Option (String × ℕ) → Type 0
Found argv k none = Unit
Found argv k (some (tok, n)) = (i : ℕ) × (n ≡ i + k) × Subcommand argv tok i

Found-value :
    (flag dir : String) (rest : List String) (k : ℕ) (r : Option (String × ℕ))
    → is_help flag ≡ false
    → is_global_value_flag flag ≡ true
    → Found rest (k + 2) r
    → Found (flag ∷ dir ∷ rest) k r
Found-value flag dir rest k none p q found = tt
Found-value flag dir rest k (some (tok, n)) p q (i, e, s) = (suc (suc i), omega arith, value p q s)

Found-bare :
    (flag : String) (rest : List String) (k : ℕ) (r : Option (String × ℕ))
    → is_help flag ≡ false
    → is_global_value_flag flag ≡ false
    → is_flag flag ≡ true
    → Found rest (k + 1) r
    → Found (flag ∷ rest) k r
Found-bare flag rest k none p q f found = tt
Found-bare flag rest k (some (tok, n)) p q f (i, e, s) = (suc i, omega arith, bare p q f s)

find_from-Found : (argv : List String) (k : ℕ) → Found argv k (find_from argv k)
unfolding find_from
find_from-Found [] k = tt
find_from-Found (tok ∷ []) k = elim (Bool-cases (is_help tok)) [
  | inl p ↦ rw p tt
  | inr p ↦ rw p (elim (Bool-cases (is_global_value_flag tok)) [
    | inl q ↦ rw q tt
    | inr q ↦ rw q (elim (Bool-cases (is_flag tok)) [
      | inl f ↦ rw f tt
      | inr f ↦ rw f (zero, omega arith, here p q f)
    ])
  ])
]
find_from-Found (tok ∷ next ∷ rest) k = elim (Bool-cases (is_help tok)) [
  | inl p ↦ rw p tt
  | inr p ↦ rw p (elim (Bool-cases (is_global_value_flag tok)) [
    | inl q ↦ rw q (Found-value tok next rest k _ p q (find_from-Found rest (k + 2)))
    | inr q ↦ rw q (elim (Bool-cases (is_flag tok)) [
      | inl f ↦
          rw f (Found-bare tok (next ∷ rest) k _ p q f (find_from-Found (next ∷ rest) (k + 1)))
      | inr f ↦ rw f (zero, omega arith, here p q f)
    ])
  ])
]

find_from_complete :
    {argv : List String} {tok : String} {i : ℕ} (k : ℕ)
    → Subcommand argv tok i
    → find_from argv k ≡ some (tok, i + k)
unfolding find_from
find_from_complete k (here {rest = []} p q f) = rw (p, q, f) (ground arith)
find_from_complete k (here {rest = r ∷ rs} p q f) = rw (p, q, f) (ground arith)
find_from_complete k (value p q s) = rw (p, q) (ground (arith, find_from_complete (k + 2) s))
find_from_complete k (bare {rest = r ∷ rs} p q f s) =
    rw (p, q, f) (ground (arith, find_from_complete (k + 1) s))
find_from_complete k (bare {rest = []} p q f s) = elim s [ ]

-- The parser finds a subcommand at an index exactly when the command line has it there in the
-- grammar of leading global flags: flags that take a value take the argument behind them along,
-- other flags stand alone, and a help or version flag ends the search.
pub find_subcommand_index_iff :
    (argv : List String) (tok : String) (i : ℕ)
    → (find_subcommand_index argv ≡ some (tok, i)) ↔ Subcommand argv tok i
unfolding find_subcommand_index
find_subcommand_index_iff argv tok i = (
  λ h. sound (find_from argv 0) h (find_from-Found argv 0),
  λ s. find_from_complete 0 s ∙ ground arith,
)
  where
    sound : (r : Option (String × ℕ)) → r ≡ some (tok, i) → Found argv 0 r → Subcommand argv tok i
    sound none h found = cc
    sound (some (t, n)) h (j, e, s) =
        let same_tok : t ≡ tok = ground arith in
        let same_index : j ≡ i = ground arith in
        subst₂ (λ t' j'. Subcommand argv t' j') same_tok same_index s
