-- ===== src/Examples/Connections.antt =====
-- Connections on the command line, by the codes of their characters: `a@::1:22`, and `a@[::1]:22`.
use tunstrap.CliInput.Named.{Named, parse_named}
use tunstrap.CliInput.Names.{flags_of, IsApart, IsEntry, parse_named-flags_of}
use tunstrap.Common.{List, All, ℕ, ◌≡◌, refl, false, [], ◌∷◌, ◌++◌, ok, arith, ◌==◌}
use tunstrap.Exports.{Text}
use tunstrap.CliInput.Port.{parse_port}
use tunstrap.CliInput.Ports.{IsPort, shown}
use tunstrap.CliInput.Endpoint.{partition, parse_endpoint}
use tunstrap.CliInput.Endpoints.{has, parse_endpoint-shown}
use tunstrap.CliInput.Reads.{IsRead, parse_endpoint-IsRead}

abbrev connection : Text
connection = 97 ∷ 64 ∷ 58 ∷ 58 ∷ 49 ∷ 58 ∷ 50 ∷ 50 ∷ []

read_connection : parse_endpoint connection ≡ ok (97 ∷ [], 58 ∷ 58 ∷ 49 ∷ [], 22)
unfolding parse_endpoint parse_port
read_connection = refl

-- An address in brackets may be empty.
empty_host : parse_endpoint (97 ∷ 64 ∷ 91 ∷ 93 ∷ []) ≡ ok (97 ∷ [], [], 22)
unfolding parse_endpoint
empty_host = refl

parse_endpoint-IsRead_example : IsRead connection (parse_endpoint connection)
parse_endpoint-IsRead_example = parse_endpoint-IsRead connection

is_port : IsPort 22
is_port = (omega arith, omega arith)

parse_endpoint-shown_example :
    ((c : ℕ) (cs : Text)
      → (c == 91) ≡ false
      → parse_endpoint ((97 ∷ []) ++ 64 ∷ ((c ∷ cs) ++ 58 ∷ shown 22)) ≡ ok (97 ∷ [], c ∷ cs, 22))
    × ((host : Text)
        → has 93 host ≡ false
        → parse_endpoint ((97 ∷ []) ++ 64 ∷ 91 ∷ (host ++ 93 ∷ 58 ∷ shown 22))
          ≡ ok (97 ∷ [], host, 22))
parse_endpoint-shown_example = parse_endpoint-shown 97 [] 22 refl is_port

-- `db=h:1` and `w=x=y`, of which the second value has an equals sign.
abbrev flags : List Text
flags = (100 ∷ 98 ∷ 61 ∷ 104 ∷ 58 ∷ 49 ∷ []) ∷ (119 ∷ 61 ∷ 120 ∷ 61 ∷ 121 ∷ []) ∷ []

abbrev entries : Named
entries = (100 ∷ 98 ∷ [], 104 ∷ 58 ∷ 49 ∷ []) ∷ (119 ∷ [], 120 ∷ 61 ∷ 121 ∷ []) ∷ []

read_flags : parse_named flags ≡ ok entries
unfolding parse_named partition
read_flags = refl

parse_named-flags_of_example : (flags_of entries ≡ flags) × IsApart [] entries × All IsEntry entries
parse_named-flags_of_example = parse_named-flags_of flags entries read_flags
