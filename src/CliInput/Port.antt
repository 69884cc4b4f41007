-- ===== src/CliInput/Port.antt =====
-- `_parse_port` of tunstrap/cli_input.py, with Python's `int` of a text of ASCII characters.
use tunstrap.Common.{
  ℕ, ◌+◌, ◌-◌, ◌*◌, Bool, true, ◌&&◌, ◌||◌, Option, none, some, [], ◌∷◌, ℤ, pos, negsuc, Result, ok,
  err, ◌==◌, leb, if◌then◌else◌,
}
use tunstrap.Exports.{Text}

-- `SchemaValidationError`, by its message
pub data InputError : Type 0 where
  no_connection no_bracket no_port_behind_bracket no_host port_no_integer port_out_of_range :
      InputError
  not_named empty_name empty_value duplicate_name : InputError

abbrev pub is_digit : ℕ → Bool
is_digit c = leb 48 c && leb c 57

abbrev pub is_space : ℕ → Bool
is_space c = c == 32 || (leb 9 c && leb c 13) || (leb 28 c && leb c 31)

abbrev pub all_spaces : Text → Bool
all_spaces [] = true
all_spaces (c ∷ cs) = is_space c && all_spaces cs

-- The digits of an `int`: an underscore stands between two digits, and spaces only behind the last.
unfoldable mutual
  pub digits : ℕ → Text → Option ℕ
  digits n [] = some n
  digits n (c ∷ cs) =
      let more = digits (n * 10 + (c - 48)) cs in
      let next = first_digit n cs in
      if is_digit c
      then more
      else if c == 95
      then next
      else if is_space c && all_spaces cs
      then some n
      else none

  pub first_digit : ℕ → Text → Option ℕ
  first_digit n [] = none
  first_digit n (c ∷ cs) =
      let more = digits (n * 10 + (c - 48)) cs in if is_digit c then more else none

abbrev pub negated : Option ℕ → Option ℤ
negated none = none
negated (some n) = some (if n == 0 then pos 0 else negsuc (n - 1))

abbrev pub as_int : Option ℕ → Option ℤ
as_int none = none
as_int (some n) = some (pos n)

-- `int(raw)`, or `none` for a `ValueError`; Python also refuses a text of more than 4300 digits, which
-- is out of range here.
unfoldable pub int_of : Text → Option ℤ
unfolding digits first_digit
int_of [] = none
int_of (c ∷ cs) =
    let rest = int_of cs in
    if is_space c
    then rest
    else if c == 43
    then as_int (first_digit 0 cs)
    else if c == 45
    then negated (first_digit 0 cs)
    else as_int (first_digit 0 (c ∷ cs))

-- `1 <= port <= 65535`
unfoldable pub in_range : ℤ → Result InputError ℕ
in_range (negsuc n) = err port_out_of_range
in_range (pos n) = if leb 1 n && leb n 65535 then ok n else err port_out_of_range

abbrev pub checked : Option ℤ → Result InputError ℕ
unfolding in_range
checked none = err port_no_integer
checked (some n) = in_range n

-- `_parse_port`
unfoldable pub parse_port : Text → Result InputError ℕ
unfolding int_of checked
parse_port raw = checked (int_of raw)
