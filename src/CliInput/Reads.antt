-- ===== src/CliInput/Reads.antt =====
-- What is read of a connection.
use tunstrap.Common.{
  ℕ, ◌≡◌, ◌≢◌, refl, ap, inl, inr, Bool-cases, true, false, Option, none, some, [], ◌∷◌, ◌++◌,
  Result, ok, err, arith, ◌==◌,
}
use tunstrap.Exports.{Text}
use tunstrap.CliInput.Port.{InputError, parse_port}
use tunstrap.CliInput.Ports.{IsPort, parse_port-IsPort}
use tunstrap.CliInput.Endpoint.{
  before_too, partition, rpartition, with_port, bracketed, plain, split_host_port, with_user,
  parted, parse_endpoint,
}
use tunstrap.CliInput.Endpoints.{has}

code_eq : (c d : ℕ) → (c == d) ≡ true → c ≡ d
code_eq c d h = ground arith

-- Where a text was parted.
abbrev pub IsParted : ℕ → Text → Option (Text × Text) → Type 0
IsParted sep t none = Unit
IsParted sep t (some (before, behind)) = (t ≡ before ++ sep ∷ behind) × (has sep before ≡ false)

pub partition-IsParted : (sep : ℕ) (t : Text) → IsParted sep t (partition sep t)
unfolding partition
partition-IsParted sep [] = tt
partition-IsParted sep (c ∷ cs) = elim (Bool-cases (c == sep)) [
  | inl e ↦ rw e (ap (λ d. d ∷ cs) (code_eq c sep e), refl)
  | inr e ↦ rw e (go e (partition sep cs) (partition-IsParted sep cs))
]
  where
    go :
        (c == sep) ≡ false
        → (o : Option (Text × Text)) → IsParted sep cs o
        → IsParted sep (c ∷ cs) (before_too c o)
    go e none h = tt
    go e (some (before, behind)) (same, free) = (ap (λ t. c ∷ t) same, rw e free)

abbrev HasPort : Result InputError (Text × ℕ) → Type 0
HasPort (err e) = Unit
HasPort (ok (host, port)) = IsPort port

with_port-HasPort : (host raw : Text) → HasPort (with_port host (parse_port raw))
with_port-HasPort host raw = go (parse_port raw) refl
  where
    go : (r : Result InputError ℕ) → parse_port raw ≡ r → HasPort (with_port host r)
    go (err e) h = tt
    go (ok n) h = parse_port-IsPort raw n h

default_IsPort : IsPort 22
default_IsPort = (omega arith, omega arith)

bracketed-HasPort : (o : Option (Text × Text)) → HasPort (bracketed o)
unfolding bracketed
bracketed-HasPort none = tt
bracketed-HasPort (some (host, [])) = default_IsPort
bracketed-HasPort (some (host, c ∷ raw)) = elim (Bool-cases (c == 58)) [
  | inl e ↦ rw e (with_port-HasPort host raw)
  | inr e ↦ rw e tt
]

plain-HasPort : (t : Text) (o : Option (Text × Text)) → HasPort (plain t o)
unfolding plain
plain-HasPort [] none = tt
plain-HasPort (c ∷ cs) none = default_IsPort
plain-HasPort [] (some ([], raw)) = tt
plain-HasPort (d ∷ ds) (some ([], raw)) = tt
plain-HasPort [] (some (c ∷ cs, raw)) = with_port-HasPort (c ∷ cs) raw
plain-HasPort (d ∷ ds) (some (c ∷ cs, raw)) = with_port-HasPort (c ∷ cs) raw

split_host_port-HasPort : (t : Text) → HasPort (split_host_port t)
unfolding split_host_port
split_host_port-HasPort [] = plain-HasPort [] none
split_host_port-HasPort (c ∷ cs) = elim (Bool-cases (c == 91)) [
  | inl e ↦ rw e (bracketed-HasPort (partition 93 cs))
  | inr e ↦ rw e (plain-HasPort (c ∷ cs) (rpartition 58 (c ∷ cs)))
]

-- What is read of a connection.
abbrev pub IsRead : Text → Result InputError (Text × Text × ℕ) → Type 0
IsRead t (err e) = Unit
IsRead t (ok (user, host, port)) =
    IsPort port
    × (user ≢ [])
    × (has 64 user ≡ false)
    × ((hostpart : Text) × (t ≡ user ++ 64 ∷ hostpart)
        × (split_host_port hostpart ≡ ok (host, port)))

-- Whatever text is read as a connection, the port is between 1 and 65535, and the user is what
-- stands before the first `@`, and is not empty.
pub parse_endpoint-IsRead : (t : Text) → IsRead t (parse_endpoint t)
unfolding parse_endpoint
parse_endpoint-IsRead t = go (partition 64 t) (partition-IsParted 64 t)
  where
    with_host :
        (c : ℕ) (cs hostpart : Text) (r : Result InputError (Text × ℕ))
        → split_host_port hostpart ≡ r
        → HasPort r
        → t ≡ (c ∷ cs) ++ 64 ∷ hostpart
        → has 64 (c ∷ cs) ≡ false
        → IsRead t (with_user (c ∷ cs) r)
    with_host c cs hostpart (err e) h port same free = tt
    with_host c cs hostpart (ok (host, p)) h port same free =
        (port, λ empty. cc, free, (hostpart, same, h))

    go : (o : Option (Text × Text)) → IsParted 64 t o → IsRead t (parted o)
    go none h = tt
    go (some ([], hostpart)) h = tt
    go (some (c ∷ cs, hostpart)) (same, free) =
        with_host c cs hostpart (split_host_port hostpart) refl (split_host_port-HasPort hostpart)
          same free
