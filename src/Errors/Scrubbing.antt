-- ===== src/Errors/Scrubbing.antt =====
-- No secret is left in the details of an error.
use tunstrap.Common.{
  ap, String, ◌≡◌, refl, inl, inr, Bool-cases, Bool, false, ◌||◌, Option, none, some, if◌then◌else◌,
  ◌=t=◌, same_text,
}
use tunstrap.Errors.{
  Detail, Details, Entries, text, number, dict, list, opaque, nil, item, end, entry, is_secret,
  scrub, scrub_all, scrub_entries, get, set_default, put_last, Kind, make_error,
}

-- Whether a secret key stands in a value, at any depth of dicts and lists.
unfoldable mutual
  pub has_secret : Detail → Bool
  has_secret (dict es) = entries_have_secret es
  has_secret (list ds) = any_has_secret ds
  has_secret (text s) = false
  has_secret (number n) = false
  has_secret (opaque value) = false

  pub any_has_secret : Details → Bool
  any_has_secret nil = false
  any_has_secret (item d ds) = has_secret d || any_has_secret ds

  pub entries_have_secret : Entries → Bool
  entries_have_secret end = false
  entries_have_secret (entry key d es) = is_secret key || has_secret d || entries_have_secret es

mutual
  unfolding scrub scrub_all scrub_entries has_secret any_has_secret entries_have_secret

  scrub_clean : (d : Detail) → has_secret (scrub d) ≡ false
  scrub_clean (dict es) = entries_clean es
  scrub_clean (list ds) = all_clean ds
  scrub_clean (text s) = refl
  scrub_clean (number n) = refl
  scrub_clean (opaque value) = refl

  all_clean : (ds : Details) → any_has_secret (scrub_all ds) ≡ false
  all_clean nil = refl
  all_clean (item d ds) = rw (scrub_clean d, all_clean ds) refl

  entries_clean : (es : Entries) → entries_have_secret (scrub_entries es) ≡ false
  entries_clean end = refl
  entries_clean (entry key d es) = elim (Bool-cases (is_secret key)) [
    | inl secret ↦ rw secret (entries_clean es)
    | inr plain ↦ rw plain (rw (plain, scrub_clean d, entries_clean es) refl)
  ]

-- However deep in dicts and lists a secret stands in the details that an error is made with, the
-- details that it keeps, and that its report shows, have none of the secret keys at any depth of dicts
-- and lists. Of what stands in a value of another type, a tuple for one, nothing is said.
pub make_error_clean :
    (kind : Kind) (message : String) (details : Entries)
    → entries_have_secret (make_error kind message details).details ≡ false
unfolding make_error
make_error_clean kind message details = entries_clean details

get-put_last :
    (key : String) (d : Detail) (es : Entries)
    → get key es ≡ none
    → get key (put_last key d es) ≡ some d
unfolding get
get-put_last key d end h = rw same_text refl
get-put_last key d (entry k e es) h = elim (Bool-cases (k =t= key)) [
  | inl same ↦ cc (rw same at h)
  | inr other ↦ rw other (get-put_last key d es (rw other at h))
]

abbrev pub or_detail : Option Detail → Detail → Detail
or_detail none d = d
or_detail (some old) d = old

pub get-set_default :
    (key : String) (d : Detail) (es : Entries)
    → get key (set_default key d es) ≡ some (or_detail (get key es) d)
unfolding set_default
get-set_default key d es = go (get key es) refl
  where
    go :
        (o : Option Detail)
        → get key es ≡ o
        → get key (elim o [ none ↦ put_last key d es | some old ↦ es ]) ≡ some (or_detail o d)
    go none h = get-put_last key d es h
    go (some old) h = h

get-put_last_other :
    (key other : String) (d : Detail) (es : Entries)
    → (other =t= key) ≡ false
    → get key (put_last other d es) ≡ get key es
unfolding get
get-put_last_other key other d end h = rw h refl
get-put_last_other key other d (entry k e es) h =
    ap (λ x. if k =t= key then some e else x) (get-put_last_other key other d es h)

pub get-set_default_other :
    (key other : String) (d : Detail) (es : Entries)
    → (other =t= key) ≡ false
    → get key (set_default other d es) ≡ get key es
unfolding set_default
get-set_default_other key other d es h = go (get other es)
  where
    go :
        (o : Option Detail)
        → get key (elim o [ none ↦ put_last other d es | some old ↦ es ]) ≡ get key es
    go none = get-put_last_other key other d es h
    go (some old) = refl
