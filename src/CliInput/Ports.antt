-- ===== src/CliInput/Ports.antt =====
-- A port that is printed is read again, and what is read is a port.
use tunstrap.Common.{
  ℕ, zero, suc, ◌+◌, ◌-◌, ◌*◌, ◌/◌, ◌≤◌, ◌<◌, ◌≡◌, ◌≢◌, refl, sym, ap, ◌∙◌, inl, inr, Bool-cases,
  Bool, true, ◌&&◌, Option, none, some, [], ◌∷◌, ◌++◌, ℤ, pos, negsuc, ok, arith, ltb, ltb→lt,
  if◌then◌else◌,
}
use Prim.Native.Nat.{◌%◌}
use tunstrap.Exports.{Text}
use tunstrap.CliInput.Port.{
  is_digit, digits, first_digit, as_int, int_of, in_range, checked, parse_port,
}

abbrev pub IsPort : ℕ → Type 0
IsPort n = (1 ≤ n) × (n ≤ 65535)

in_range-IsPort : (m : ℕ) {n : ℕ} → in_range (pos m) ≡ ok n → IsPort n
unfolding in_range
in_range-IsPort m h = ground arith

pub parse_port-IsPort : (raw : Text) (n : ℕ) → parse_port raw ≡ ok n → IsPort n
unfolding parse_port
parse_port-IsPort raw n h = go (int_of raw) h
  where
    go : (i : Option ℤ) → checked i ≡ ok n → IsPort n
    go none h = cc
    go (some (negsuc m)) h = cc
    go (some (pos m)) h = in_range-IsPort m h

abbrev pub all_digits : Text → Bool
all_digits [] = true
all_digits (c ∷ cs) = is_digit c && all_digits cs

abbrev value : ℕ → Text → ℕ
value n [] = n
value n (c ∷ cs) = value (n * 10 + (c - 48)) cs

digits-value : (n : ℕ) (t : Text) → all_digits t ≡ true → digits n t ≡ some (value n t)
unfolding digits
digits-value n [] h = refl
digits-value n (c ∷ cs) h = elim (Bool-cases (is_digit c)) [
  | inl d ↦ rw d (digits-value (n * 10 + (c - 48)) cs (rw d at h))
  | inr d ↦ cc (rw d at h)
]

digit_first : (c : ℕ) (cs : Text) → all_digits (c ∷ cs) ≡ true → is_digit c ≡ true
digit_first c cs h = ground arith

digits_behind : (c : ℕ) (cs : Text) → all_digits (c ∷ cs) ≡ true → all_digits cs ≡ true
digits_behind c cs h = elim (Bool-cases (is_digit c)) [ inl d ↦ rw d at h | inr d ↦ cc (rw d at h) ]

int_of_digit :
    (c : ℕ) (cs : Text)
    → is_digit c ≡ true
    → int_of (c ∷ cs) ≡ as_int (digits (0 * 10 + (c - 48)) cs)
unfolding int_of first_digit
int_of_digit c cs h = ground arith

int_of-value :
    (c : ℕ) (cs : Text)
    → all_digits (c ∷ cs) ≡ true
    → int_of (c ∷ cs) ≡ some (pos (value 0 (c ∷ cs)))
unfolding int_of first_digit
int_of-value c cs h =
    let rest = digits-value (0 * 10 + (c - 48)) cs (digits_behind c cs h) in
    int_of_digit c cs (digit_first c cs h) ∙ ap as_int rest

-- The digits of a number.
unfoldable pub shown_with : ℕ → ℕ → Text
shown_with zero n = []
shown_with (suc fuel) n =
    let rest = shown_with fuel (n / 10) in
    if ltb n 10 then (48 + n) ∷ [] else rest ++ (48 + n % 10) ∷ []

abbrev pub shown : ℕ → Text
unfolding shown_with
shown n = shown_with (suc n) n

value-append : (m : ℕ) (t : Text) (c : ℕ) → value m (t ++ c ∷ []) ≡ value m t * 10 + (c - 48)
value-append m [] c = refl
value-append m (d ∷ t) c = value-append (m * 10 + (d - 48)) t c

value-shown_with : (fuel n : ℕ) → n < fuel → value 0 (shown_with fuel n) ≡ n
unfolding shown_with
value-shown_with zero n h = let no : zero ≡ suc zero = omega arith in cc
value-shown_with (suc fuel) n h = elim (Bool-cases (ltb n 10)) [
  | inl small ↦ rw small (omega arith)
  | inr big ↦
      let ten : 10 ≤ n = ground arith in
      let less : n / 10 < fuel = omega arith in
      rw big (
        value-append 0 (shown_with fuel (n / 10)) (48 + n % 10)
        ∙ ap (λ k. k * 10 + (48 + n % 10 - 48)) (value-shown_with fuel (n / 10) less)
        ∙ omega arith)
]

all_digits-append :
    (t : Text) (c : ℕ) → all_digits t ≡ true → is_digit c ≡ true → all_digits (t ++ c ∷ []) ≡ true
all_digits-append [] c h g = rw g refl
all_digits-append (d ∷ t) c h g =
    rw (digit_first d t h) (all_digits-append t c (digits_behind d t h) g)

is_digit-small : (n : ℕ) → n < 10 → is_digit (48 + n) ≡ true
is_digit-small n h = ground arith

all_digits-shown_with : (fuel n : ℕ) → all_digits (shown_with fuel n) ≡ true
unfolding shown_with
all_digits-shown_with zero n = refl
all_digits-shown_with (suc fuel) n = elim (Bool-cases (ltb n 10)) [
  | inl small ↦ rw small (rw (is_digit-small n (ltb→lt n 10 small)) refl)
  | inr big ↦ rw big (
      all_digits-append (shown_with fuel (n / 10)) (48 + n % 10)
        (all_digits-shown_with fuel (n / 10)) (is_digit-small (n % 10) (omega arith)))
]

shown_filled : (n : ℕ) → 1 ≤ n → shown n ≢ []
unfolding shown
shown_filled n h = λ empty.
    let none_of = ap (value 0) (sym empty) ∙ value-shown_with (suc n) n (omega arith) in
    let no : zero ≡ suc zero = omega (arith, none_of) in cc

pub all_digits-shown : (n : ℕ) → all_digits (shown n) ≡ true
unfolding shown
all_digits-shown n = all_digits-shown_with (suc n) n

int_of-numeral : (t : Text) → t ≢ [] → all_digits t ≡ true → int_of t ≡ some (pos (value 0 t))
int_of-numeral [] h g = elim (h refl) [ ]
int_of-numeral (c ∷ cs) h g = int_of-value c cs g

in_range-ok : (n : ℕ) → IsPort n → in_range (pos n) ≡ ok n
unfolding in_range
in_range-ok n (low, high) = ground arith

-- A printed port is read as itself.
pub parse_port-shown : (n : ℕ) → IsPort n → parse_port (shown n) ≡ ok n
unfolding parse_port shown
parse_port-shown n port =
    ap checked (
      int_of-numeral (shown n) (shown_filled n port.0) (all_digits-shown n)
      ∙ ap (λ m. some (pos m)) (value-shown_with (suc n) n (omega arith)))
    ∙ in_range-ok n port
