-- ===== src/CliInput/Names.antt =====
-- What the named flags give: every flag, in its order, under a name of its own.
use tunstrap.Common.{
  ◌≡◌, ◌≢◌, refl, sym, ap, ◌∙◌, inl, inr, Bool-cases, false, Option, none, some, List, [], ◌∷◌,
  ◌++◌, Result, ok, >>=-eq-ok, All,
}
use mathlib.Core.Path.{subst}
use mathlib.Core.List.{append_assoc, append-nil}
use tunstrap.Exports.{Text}
use tunstrap.CliInput.Port.{InputError}
use tunstrap.CliInput.Endpoint.{partition}
use tunstrap.CliInput.Endpoints.{has}
use tunstrap.CliInput.Reads.{IsParted, partition-IsParted}
use tunstrap.CliInput.Named.{Named, is_named, add_named, parse_from, parse_named}

-- `NAME=VALUE`
abbrev pub flag_of : Text × Text → Text
flag_of (name, value) = name ++ 61 ∷ value

abbrev pub flags_of : Named → List Text
flags_of [] = []
flags_of (entry ∷ out) = flag_of entry ∷ flags_of out

-- The names are apart: none stands before itself.
abbrev pub IsApart : Named → Named → Type 0
IsApart before [] = Unit
IsApart before ((name, value) ∷ out) =
    (is_named name before ≡ false) × IsApart (before ++ (name, value) ∷ []) out

abbrev pub IsEntry : Text × Text → Type 0
IsEntry (name, value) = (name ≢ []) × (value ≢ []) × (has 61 name ≡ false)

-- What is added to a dict.
abbrev Adds : Named → List Text → Named → Type 0
Adds before items out =
    (more : Named) × (out ≡ before ++ more)
    × (flags_of more ≡ items)
    × IsApart before more
    × All IsEntry more

ok_injective : {a b : Named} → ◌≡◌ {A = Result InputError Named} (ok a) (ok b) → a ≡ b
ok_injective h = cc

added :
    (before : Named) (item : Text) (o : Option (Text × Text)) (out : Named)
    → IsParted 61 item o
    → add_named before o ≡ ok out
    → (name value : Text) × (out ≡ before ++ (name, value) ∷ [])
      × (flag_of (name, value) ≡ item)
      × (is_named name before ≡ false)
      × IsEntry (name, value)
unfolding add_named
added before item none out h g = cc
added before item (some ([], value)) out h g = cc
added before item (some (c ∷ cs, [])) out h g = cc
added before item (some (c ∷ cs, d ∷ ds)) out (same, free) g =
    elim (Bool-cases (is_named (c ∷ cs) before)) [
      | inl taken ↦ cc (rw taken at g)
      | inr fresh ↦ (
        c ∷ cs,
        d ∷ ds,
        sym (ok_injective (rw fresh at g)),
        sym same,
        fresh,
        (λ e. cc, λ e. cc, free),
      )
    ]

parse_from-Adds :
    (before : Named) (items : List Text) (out : Named)
    → parse_from before items ≡ ok out
    → Adds before items out
unfolding parse_from
parse_from-Adds before [] out h = ([], sym (ok_injective h) ∙ sym (append-nil before), refl, tt, tt)
parse_from-Adds before (item ∷ items) out h =
    let (mid, here, there) = >>=-eq-ok (add_named before (partition 61 item)) _ h in
    let (name, value, same, flag, fresh, entry) =
      added before item (partition 61 item) mid (partition-IsParted 61 item) here in
    let (more, all, flags, apart, entries) = parse_from-Adds mid items out there in
    (
      (name, value) ∷ more,
      all ∙ ap (λ d. d ++ more) same ∙ append_assoc before ((name, value) ∷ []) more,
      ap (λ t. t ∷ flags_of more) flag ∙ ap (λ ts. item ∷ ts) flags,
      (fresh, subst (λ d. IsApart d more) same apart),
      (entry, entries),
    )

-- When the named flags are accepted, the dict has an entry for each of them, in their order: written
-- as `NAME=VALUE`, the entries are the flags themselves. No name and no value is empty, no name has
-- an equals sign, and no name stands before itself.
pub parse_named-flags_of :
    (items : List Text) (out : Named)
    → parse_named items ≡ ok out
    → (flags_of out ≡ items) × IsApart [] out × All IsEntry out
unfolding parse_named
parse_named-flags_of items out h =
    let (more, same, flags, apart, entries) = parse_from-Adds [] items out h in
    (
      ap flags_of same ∙ flags,
      subst (IsApart []) (sym same) apart,
      subst (All IsEntry) (sym same) entries,
    )
