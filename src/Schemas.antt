-- ===== src/Schemas.antt =====
-- `_parse_host_port` of tunstrap/schemas.py, which reads the target of a forward, on texts of
-- character codes: 58 is the colon, 91 and 93 are the square brackets. Pydantic's fields are not
-- modelled.
use tunstrap.Common.{
  ℕ, Bool, false, ◌&&◌, ◌||◌, Option, none, some, [], ◌∷◌, Result, ok, err, ◌==◌, if◌then◌else◌,
  ◌≡◌, ◌≢◌, refl, Bool-cases, inl, inr,
}
use tunstrap.Exports.{Text}
use tunstrap.CliInput.Port.{InputError, parse_port}
use tunstrap.CliInput.Endpoint.{before_too, rpartition}
use tunstrap.CliInput.Ports.{IsPort, parse_port-IsPort}

-- `ValueError`, by its message
pub data TargetError : Type 0 where
  no_ipv6_form no_colon empty_host port_out_of_range : TargetError

abbrev pub starts_colon : Text → Option Text
starts_colon [] = none
starts_colon (c ∷ cs) = if c == 58 then some cs else none

abbrev pub or_later : ℕ → Option Text → Option (Text × Text) → Option (Text × Text)
or_later c (some behind) later = some ([], behind)
or_later c none later = before_too c later

-- What stands before the first `]:` and behind it.
unfoldable pub at_closing : Text → Option (Text × Text)
at_closing [] = none
at_closing (c ∷ cs) =
    let later = at_closing cs in
    if c == 93 then or_later c (starts_colon cs) later else before_too c later

-- `"::" in value`, which has two colons
unfoldable pub has_two_colons : Text → Bool
has_two_colons [] = false
has_two_colons (c ∷ []) = false
has_two_colons (c ∷ d ∷ cs) = c == 58 && d == 58 || has_two_colons (d ∷ cs)

-- One message for every failure of the port.
abbrev pub ranged : Result InputError ℕ → Result TargetError ℕ
ranged (ok port) = ok port
ranged (err e) = err port_out_of_range

abbrev pub with_host : Text → Result TargetError ℕ → Result TargetError (Text × ℕ)
with_host host (ok port) = ok (host, port)
with_host host (err e) = err e

-- Behind the splitting: the error of a text that is not split comes first.
unfoldable pub of_parts : TargetError → Option (Text × Text) → Result TargetError (Text × ℕ)
unfolding parse_port
of_parts missing none = err missing
of_parts missing (some ([], raw)) = err empty_host
of_parts missing (some (c ∷ cs, raw)) = with_host (c ∷ cs) (ranged (parse_port raw))

-- `_parse_host_port`
unfoldable pub parse_host_port : Text → Result TargetError (Text × ℕ)
unfolding of_parts at_closing has_two_colons rpartition
parse_host_port [] = err no_colon
parse_host_port (c ∷ cs) =
    if c == 91
    then of_parts no_ipv6_form (at_closing cs)
    else if has_two_colons (c ∷ cs)
    then err no_ipv6_form
    else of_parts no_colon (rpartition 58 (c ∷ cs))

-- A target that is read.
abbrev IsTarget : Result TargetError (Text × ℕ) → Type 0
IsTarget (err e) = Unit
IsTarget (ok (host, port)) = (host ≢ []) × IsPort port

of_parts-IsTarget :
    (missing : TargetError) (o : Option (Text × Text)) → IsTarget (of_parts missing o)
unfolding of_parts
of_parts-IsTarget missing none = tt
of_parts-IsTarget missing (some ([], raw)) = tt
of_parts-IsTarget missing (some (c ∷ cs, raw)) = go (parse_port raw) refl
  where
    go : (r : Result InputError ℕ) → parse_port raw ≡ r → IsTarget (with_host (c ∷ cs) (ranged r))
    go (err e) h = tt
    go (ok port) h = (λ empty. cc, parse_port-IsPort raw port h)

-- Every target that is read has a host that is not empty and a port between 1 and 65535.
parse_host_port-IsTarget : (t : Text) → IsTarget (parse_host_port t)
unfolding parse_host_port
parse_host_port-IsTarget [] = tt
parse_host_port-IsTarget (c ∷ cs) = elim (Bool-cases (c == 91)) [
  | inl e ↦ rw e (of_parts-IsTarget no_ipv6_form (at_closing cs))
  | inr e ↦ elim (Bool-cases (has_two_colons (c ∷ cs))) [
    | inl two ↦ rw (e, two) tt
    | inr one ↦ rw (e, one) (of_parts-IsTarget no_colon (rpartition 58 (c ∷ cs)))
  ]
]
