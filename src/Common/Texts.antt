-- ===== src/Common/Texts.antt =====
-- Facts on texts that are put together.
use Prim.Native.Nat.{zero}
use Prim.Native.String.{String, ◌++◌ as ◌<>◌, count}
use mathlib.Core.Path.{◌≡◌, refl, sym, ap, ◌∙◌, subst}
use mathlib.Core.Logic.{inl, inr}
use mathlib.Core.Bool.{true, false}
use text.Mathlib.Text.{◌==◌, starts_with}
use text.Mathlib.TextEquality.{eq_iff, starts_with_iff}
use text.Mathlib.TextBridge.{IsPrefix}
use text.Mathlib.TextLemmas.{append-eq-nil_iff, prefix-append, length-append, length-eq-zero_iff}
use native.Mathlib.Omega.{arith}
use tunstrap.Common.Tests.{Bool-cases}

pub same_text : (s : String) → (s == s) ≡ true
same_text s = (eq_iff s s).1 refl

-- A text with a prefix that is not empty is not empty.
pub prefix_filled : (s t : String) → (s == "") ≡ false → ((s <> t) == "") ≡ false
prefix_filled s t h = elim (Bool-cases ((s <> t) == "")) [
  | inl e ↦ cc ((eq_iff s "").1 (append-eq-nil_iff.0 ((eq_iff (s <> t) "").0 e)).0)
  | inr e ↦ e
]

-- A text with a prefix is none that lacks it.
pub prefix_differs : (p t s : String) → starts_with s p ≡ false → ((p <> t) == s) ≡ false
prefix_differs p t s h = elim (Bool-cases ((p <> t) == s)) [
  | inl e ↦
      let same = (eq_iff (p <> t) s).0 e in
      let has_prefix = (starts_with_iff s p).1 (subst (IsPrefix p) same (prefix-append p t)) in cc
  | inr e ↦ e
]

-- A text is none that it stands in, between a text that is not empty and another.
pub wrapped_differs : (p t s : String) → (p == "") ≡ false → ((p <> (t <> s)) == t) ≡ false
wrapped_differs p t s h = elim (Bool-cases ((p <> (t <> s)) == t)) [
  | inl e ↦
      let same = ap count ((eq_iff (p <> (t <> s)) t).0 e) in
      let sizes = sym (length-append p (t <> s)) ∙ same in
      let inner = length-append t s in
      let empty : count p ≡ zero = omega (arith, sizes, inner) in
      cc ((eq_iff p "").1 (length-eq-zero_iff.0 empty))
  | inr e ↦ e
]
