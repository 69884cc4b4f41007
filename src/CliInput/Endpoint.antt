-- ===== src/CliInput/Endpoint.antt =====
-- `parse_endpoint` and `_split_host_port` of tunstrap/cli_input.py.
use tunstrap.Common.{ℕ, Option, none, some, [], ◌∷◌, Result, ok, err, ◌==◌, if◌then◌else◌}
use tunstrap.Exports.{Text}
use tunstrap.CliInput.Port.{
  InputError, no_connection, no_bracket, no_port_behind_bracket, no_host, parse_port,
}

abbrev pub before_too : ℕ → Option (Text × Text) → Option (Text × Text)
before_too c none = none
before_too c (some (before, behind)) = some (c ∷ before, behind)

-- `partition(sep)`: what stands before the first separator and behind it, if there is one.
unfoldable pub partition : ℕ → Text → Option (Text × Text)
partition sep [] = none
partition sep (c ∷ cs) =
    let rest = partition sep cs in if c == sep then some ([], cs) else before_too c rest

abbrev pub or_here : ℕ → ℕ → Text → Option (Text × Text) → Option (Text × Text)
or_here sep c cs (some (before, behind)) = some (c ∷ before, behind)
or_here sep c cs none = if c == sep then some ([], cs) else none

-- `rpartition(sep)`: the same for the last separator.
unfoldable pub rpartition : ℕ → Text → Option (Text × Text)
rpartition sep [] = none
rpartition sep (c ∷ cs) = or_here sep c cs (rpartition sep cs)

abbrev pub with_port : Text → Result InputError ℕ → Result InputError (Text × ℕ)
with_port host (ok port) = ok (host, port)
with_port host (err e) = err e

-- Behind `[`: the address, and what follows the bracket.
unfoldable pub bracketed : Option (Text × Text) → Result InputError (Text × ℕ)
bracketed none = err no_bracket
bracketed (some (host, [])) = ok (host, 22)
bracketed (some (host, c ∷ raw)) =
    if c == 58 then with_port host (parse_port raw) else err no_port_behind_bracket

-- Without a bracket: a colon or none.
unfoldable pub plain : Text → Option (Text × Text) → Result InputError (Text × ℕ)
plain [] none = err no_host
plain (c ∷ cs) none = ok (c ∷ cs, 22)
plain hostpart (some ([], raw)) = err no_host
plain hostpart (some (c ∷ cs, raw)) = with_port (c ∷ cs) (parse_port raw)

-- `_split_host_port`
unfoldable pub split_host_port : Text → Result InputError (Text × ℕ)
unfolding bracketed plain partition rpartition
split_host_port [] = plain [] none
split_host_port (c ∷ cs) =
    if c == 91 then bracketed (partition 93 cs) else plain (c ∷ cs) (rpartition 58 (c ∷ cs))

abbrev pub with_user : Text → Result InputError (Text × ℕ) → Result InputError (Text × Text × ℕ)
with_user user (ok (host, port)) = ok (user, host, port)
with_user user (err e) = err e

abbrev pub parted : Option (Text × Text) → Result InputError (Text × Text × ℕ)
unfolding split_host_port
parted none = err no_connection
parted (some ([], hostpart)) = err no_connection
parted (some (c ∷ cs, hostpart)) = with_user (c ∷ cs) (split_host_port hostpart)

-- `parse_endpoint`
unfoldable pub parse_endpoint : Text → Result InputError (Text × Text × ℕ)
unfolding parted
parse_endpoint endpoint = parted (partition 64 endpoint)
