-- ===== src/CliInput/Endpoints.antt =====
-- A connection that is printed is read again.
use tunstrap.Common.{
  ℕ, ◌≡◌, refl, ap, ◌∙◌, inl, inr, Bool-cases, Bool, true, false, none, some, [], ◌∷◌, ◌++◌, ok,
  arith, ◌==◌, any,
}
use tunstrap.Exports.{Text}
use tunstrap.CliInput.Port.{is_digit}
use tunstrap.CliInput.Ports.{IsPort, parse_port-shown, all_digits, all_digits-shown, shown}
use tunstrap.CliInput.Endpoint.{
  before_too, partition, or_here, rpartition, with_port, bracketed, plain, split_host_port,
  with_user, parted, parse_endpoint,
}

abbrev pub has : ℕ → Text → Bool
has sep t = any (λ c. c == sep) t

same_code : (c : ℕ) → (c == c) ≡ true
same_code c = ground arith

partition-append :
    (sep : ℕ) (before behind : Text)
    → has sep before ≡ false
    → partition sep (before ++ sep ∷ behind) ≡ some (before, behind)
unfolding partition
partition-append sep [] behind h = rw (same_code sep) refl
partition-append sep (c ∷ cs) behind h = elim (Bool-cases (c == sep)) [
  | inl e ↦ cc (rw e at h)
  | inr e ↦ rw e (ap (before_too c) (partition-append sep cs behind (rw e at h)))
]

rpartition-none : (sep : ℕ) (t : Text) → has sep t ≡ false → rpartition sep t ≡ none
unfolding rpartition
rpartition-none sep [] h = refl
rpartition-none sep (c ∷ cs) h = elim (Bool-cases (c == sep)) [
  | inl e ↦ cc (rw e at h)
  | inr e ↦ ap (or_here sep c cs) (rpartition-none sep cs (rw e at h)) ∙ rw e refl
]

rpartition-append :
    (sep : ℕ) (before behind : Text)
    → has sep behind ≡ false
    → rpartition sep (before ++ sep ∷ behind) ≡ some (before, behind)
unfolding rpartition
rpartition-append sep [] behind h =
    ap (or_here sep sep behind) (rpartition-none sep behind h) ∙ rw (same_code sep) refl
rpartition-append sep (c ∷ cs) behind h =
    ap (or_here sep c (cs ++ sep ∷ behind)) (rpartition-append sep cs behind h)

digits_have_no_colon : (t : Text) → all_digits t ≡ true → has 58 t ≡ false
digits_have_no_colon [] h = refl
digits_have_no_colon (c ∷ cs) h = elim (Bool-cases (is_digit c)) [
  | inl d ↦
      let rest = digits_have_no_colon cs (rw d at h) in
      let other : (c == 58) ≡ false = ground arith in rw other rest
  | inr d ↦ cc (rw d at h)
]

-- `HOST:PORT`, and `[HOST]:PORT`
split_host_port-plain :
    (c : ℕ) (cs : Text) (port : ℕ)
    → (c == 91) ≡ false
    → IsPort port
    → split_host_port ((c ∷ cs) ++ 58 ∷ shown port) ≡ ok (c ∷ cs, port)
unfolding split_host_port plain
split_host_port-plain c cs port h valid = rw h (
    ap (plain (c ∷ (cs ++ 58 ∷ shown port))) (
      rpartition-append 58 (c ∷ cs) (shown port)
        (digits_have_no_colon (shown port) (all_digits-shown port)))
    ∙ ap (with_port (c ∷ cs)) (parse_port-shown port valid))

split_host_port-bracketed :
    (host : Text) (port : ℕ)
    → has 93 host ≡ false
    → IsPort port
    → split_host_port (91 ∷ (host ++ 93 ∷ 58 ∷ shown port)) ≡ ok (host, port)
unfolding split_host_port bracketed
split_host_port-bracketed host port h valid =
    ap bracketed (partition-append 93 host (58 ∷ shown port) h)
    ∙ ap (with_port host) (parse_port-shown port valid)

-- A printed connection is read as it was meant: a user that is not empty and has no `@`, and a port
-- between 1 and 65535. The host may be any text that is not empty and does not begin with `[`, an
-- address with colons among them, and in brackets any text without `]`.
pub parse_endpoint-shown :
    (u : ℕ) (us : Text) (port : ℕ)
    → has 64 (u ∷ us) ≡ false
    → IsPort port
    → ((c : ℕ) (cs : Text)
        → (c == 91) ≡ false
        → parse_endpoint ((u ∷ us) ++ 64 ∷ ((c ∷ cs) ++ 58 ∷ shown port))
          ≡ ok (u ∷ us, c ∷ cs, port))
      × ((host : Text)
          → has 93 host ≡ false
          → parse_endpoint ((u ∷ us) ++ 64 ∷ 91 ∷ (host ++ 93 ∷ 58 ∷ shown port))
            ≡ ok (u ∷ us, host, port))
unfolding parse_endpoint
parse_endpoint-shown u us port h valid = (
  λ c cs no_bracket.
      ap parted (partition-append 64 (u ∷ us) ((c ∷ cs) ++ 58 ∷ shown port) h)
      ∙ ap (with_user (u ∷ us)) (split_host_port-plain c cs port no_bracket valid),
  λ host closed.
      ap parted (partition-append 64 (u ∷ us) (91 ∷ (host ++ 93 ∷ 58 ∷ shown port)) h)
      ∙ ap (with_user (u ∷ us)) (split_host_port-bracketed host port closed valid),
)
