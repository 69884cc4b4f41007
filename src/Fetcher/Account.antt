-- ===== src/Fetcher/Account.antt =====
-- Every file has a result, and the required failures are the required files that have an error.
use mathlib.Core.Path.{subst}
use tunstrap.Common.{
  String, ◌≡◌, refl, sym, ◌∙◌, Bool, true, false, not, ◌&&◌, ◌||◌, Option, none, some, List, [],
  ◌∷◌, ◌++◌, ok, err, ◌>>=◌, All, arith, contains, ◌=t=◌, eq_iff, same_text, >>=-eq-ok,
}
use tunstrap.Common.Dict.{Dict, keys, lookup, lookup-insert}
use tunstrap.Fetcher.{
  Raised, FileSpec, FetchedFile, failure, Answer, Channel, Digests, Fetched, no_files, has_error,
  add_file, fail_file, record_channel_failure, channel_failed, classify_error, fetch_one,
  fetch_from, fetch_over, fetch_files,
}

contains-append :
    (xs : List String) (y z : String) → contains (xs ++ y ∷ []) z ≡ (contains xs z || y =t= z)
contains-append [] y z = ground arith
contains-append (x ∷ xs) y z = ground (arith, contains-append xs y z)

-- What the results say of one file.
abbrev pub IsSettled : Fetched → String × FileSpec → Type 0
IsSettled p (name, spec) =
    (f : FetchedFile) × (lookup name p.results ≡ some f)
    × (contains p.required_failures name ≡ (has_error f && spec.required))

-- Nothing is known of a file yet.
abbrev IsOpen : Fetched → String × FileSpec → Type 0
IsOpen p (name, spec) = (lookup name p.results ≡ none) × (contains p.required_failures name ≡ false)

module _ (name : String) (spec : FileSpec) (f : FetchedFile) (p : Fetched) where
  add_file-IsSettled : IsOpen p (name, spec) → IsSettled (add_file name spec f p) (name, spec)
  unfolding add_file
  add_file-IsSettled (absent, unnamed) = (
    f,
    rw (lookup-insert, same_text) refl,
    ground (arith, contains-append p.required_failures name name, same_text name),
  )

  add_file-results :
      (other : String)
      → (name =t= other) ≡ false
      → lookup other (add_file name spec f p).results ≡ lookup other p.results
  unfolding add_file
  add_file-results other h = rw (lookup-insert, h) refl

  add_file-failures :
      (other : String)
      → (name =t= other) ≡ false
      → contains (add_file name spec f p).required_failures other
        ≡ contains p.required_failures other
  unfolding add_file
  add_file-failures other h = ground (arith, contains-append p.required_failures name other)

-- A loop that adds a result for each of some files.
data Visits : Dict FileSpec → Fetched → Fetched → Type 0 where
  done : {p : Fetched} → Visits [] p p
  file :
      {name : String} {spec : FileSpec} {specs : Dict FileSpec} {p q : Fetched} (f : FetchedFile)
      → Visits specs (add_file name spec f p) q
      → Visits ((name, spec) ∷ specs) p q

abbrev pub are_distinct : List String → Bool
are_distinct [] = true
are_distinct (name ∷ names) = not (contains names name) && are_distinct names

Visits-results :
    {specs : Dict FileSpec} {p q : Fetched} (other : String)
    → Visits specs p q
    → contains (keys specs) other ≡ false
    → lookup other q.results ≡ lookup other p.results
Visits-results other done h = refl
Visits-results other (file {name = n} {spec = s} {p = p} f v) h =
    Visits-results other v (ground arith) ∙ add_file-results n s f p other (ground arith)

Visits-failures :
    {specs : Dict FileSpec} {p q : Fetched} (other : String)
    → Visits specs p q
    → contains (keys specs) other ≡ false
    → contains q.required_failures other ≡ contains p.required_failures other
Visits-failures other done h = refl
Visits-failures other (file {name = n} {spec = s} {p = p} f v) h =
    Visits-failures other v (ground arith) ∙ add_file-failures n s f p other (ground arith)

add_file-IsOpen :
    (name : String) (spec : FileSpec) (f : FetchedFile) (p : Fetched) (specs : Dict FileSpec)
    → contains (keys specs) name ≡ false
    → All (IsOpen p) specs
    → All (IsOpen (add_file name spec f p)) specs
add_file-IsOpen name spec f p [] n h = tt
add_file-IsOpen name spec f p ((other, s) ∷ specs) n ((absent, unnamed), h) =
    let apart : (name =t= other) ≡ false = ground (arith, eq_iff name other, eq_iff other name) in
    (
      (
        add_file-results name spec f p other apart ∙ absent,
        add_file-failures name spec f p other apart ∙ unnamed,
      ),
      add_file-IsOpen name spec f p specs (ground arith) h,
    )

Visits-IsSettled :
    {specs : Dict FileSpec} {p q : Fetched}
    → Visits specs p q
    → are_distinct (keys specs) ≡ true
    → All (IsOpen p) specs
    → All (IsSettled q) specs
Visits-IsSettled done d h = tt
Visits-IsSettled {q = q} (file {name = n} {spec = s} {specs = specs} {p = p} f v) d (open_n, h) =
    let alone : contains (keys specs) n ≡ false = ground arith in
    let (g, found, counted) = add_file-IsSettled n s f p open_n in
    (
      (g, Visits-results n v alone ∙ found, Visits-failures n v alone ∙ counted),
      Visits-IsSettled v (ground arith) (add_file-IsOpen n s f p specs alone h),
    )

fail_file-new :
    (code name : String) (spec : FileSpec) (p : Fetched)
    → lookup name p.results ≡ none
    → fail_file code name spec p ≡ add_file name spec (failure code) p
unfolding fail_file
fail_file-new code name spec p h = rw h refl

record_channel_failure-Visits :
    (code : String) (specs : Dict FileSpec) (p : Fetched)
    → are_distinct (keys specs) ≡ true
    → All (IsOpen p) specs
    → Visits specs p (record_channel_failure code specs p)
unfolding record_channel_failure
record_channel_failure-Visits code [] p d h = done
record_channel_failure-Visits code ((n, s) ∷ specs) p d ((absent, unnamed), h) =
    rw (fail_file-new code n s p absent) (
      file (failure code) (
        record_channel_failure-Visits code specs (add_file n s (failure code) p) (ground arith)
          (add_file-IsOpen n s (failure code) p specs (ground arith) h)))

record_channel_failure-settled :
    (code : String) (specs : Dict FileSpec) (p : Fetched)
    → All (IsSettled p) specs
    → record_channel_failure code specs p ≡ p
unfolding record_channel_failure fail_file
record_channel_failure-settled code [] p h = refl
record_channel_failure-settled code ((n, s) ∷ specs) p ((f, found, c), h) =
    rw found (record_channel_failure-settled code specs p h)

nothing_known : (specs : Dict FileSpec) → All (IsOpen no_files) specs
unfolding lookup
nothing_known [] = tt
nothing_known ((name, spec) ∷ specs) = ((refl, refl), nothing_known specs)

channel_failed-ok :
    (e : Raised) (specs : Dict FileSpec) (p q : Fetched)
    → channel_failed e specs p ≡ ok q
    → (code : String) × (record_channel_failure code specs p ≡ q)
unfolding channel_failed
channel_failed-ok e specs p q h = go (classify_error e) h
  where
    go :
        (r : Option String)
        → (elim r [ none ↦ err e | some code ↦ ok (record_channel_failure code specs p) ]) ≡ ok q
        → (code : String) × (record_channel_failure code specs p ≡ q)
    go none g = cc
    go (some code) g = (code, ground arith)

channel_failed-IsSettled :
    (e : Raised) (specs : Dict FileSpec) (p q : Fetched)
    → channel_failed e specs p ≡ ok q
    → ((code : String) → All (IsSettled (record_channel_failure code specs p)) specs)
    → All (IsSettled q) specs
channel_failed-IsSettled e specs p q h settled =
    let (code, same) = channel_failed-ok e specs p q h in
    subst (λ r. All (IsSettled r) specs) same (settled code)

module _ (digests : Digests) where
  fetch_from-Visits :
      (answer : String → Answer) (specs : Dict FileSpec) (p q : Fetched)
      → fetch_from digests answer specs p ≡ ok q
      → Visits specs p q
  unfolding fetch_from
  fetch_from-Visits answer [] p q h =
      let same : p ≡ q = ground arith in subst (Visits [] p) same done
  fetch_from-Visits answer ((n, s) ∷ specs) p q h =
      let (f, _, h1) = >>=-eq-ok (fetch_one digests (answer n)) _ h in
      file f (fetch_from-Visits answer specs (add_file n s f p) q h1)

  module _ (channel : Channel) (specs : Dict FileSpec) (d : are_distinct (keys specs) ≡ true) where
    failed_before :
        (e : Raised) (q : Fetched)
        → channel_failed e specs no_files ≡ ok q
        → All (IsSettled q) specs
    failed_before e q h = channel_failed-IsSettled e specs no_files q h λ code.
        Visits-IsSettled (record_channel_failure-Visits code specs no_files d (nothing_known specs))
          d (nothing_known specs)

    fetched_all :
        (p : Fetched)
        → fetch_from digests channel.answer specs no_files ≡ ok p
        → All (IsSettled p) specs
    fetched_all p h =
        Visits-IsSettled (fetch_from-Visits channel.answer specs no_files p h) d
          (nothing_known specs)

    failed_behind :
        (e : Raised) (p q : Fetched)
        → All (IsSettled p) specs
        → channel_failed e specs p ≡ ok q
        → All (IsSettled q) specs
    failed_behind e p q settled h = channel_failed-IsSettled e specs p q h λ code.
        subst (λ r. All (IsSettled r) specs)
          (sym (record_channel_failure-settled code specs p settled)) settled

    left :
        (leave : Option Raised) (p q : Fetched)
        → All (IsSettled p) specs
        → (elim leave [ none ↦ ok p | some e ↦ channel_failed e specs p ]) ≡ ok q
        → All (IsSettled q) specs
    left none p q settled h =
        let same : p ≡ q = ground arith in subst (λ r. All (IsSettled r) specs) same settled
    left (some e) p q settled h = failed_behind e p q settled h

    fetch_over-IsSettled :
        (q : Fetched) → fetch_over digests channel specs ≡ ok q → All (IsSettled q) specs
    unfolding fetch_over
    fetch_over-IsSettled q h = entered channel.enter h
      where
        entered :
            (enter : Option Raised)
            → (elim enter [
              | some e ↦ channel_failed e specs no_files
              | none ↦ fetch_from digests channel.answer specs no_files >>= λ p.
                  elim channel.leave [ none ↦ ok p | some e ↦ channel_failed e specs p ]
            ])
              ≡ ok q
            → All (IsSettled q) specs
        entered (some e) g = failed_before e q g
        entered none g =
            let (p, ran, g1) = >>=-eq-ok (fetch_from digests channel.answer specs no_files) _ g in
            left channel.leave p q (fetched_all p ran) g1

-- Whether the channel fails before the first file, behind the last one, or not at all: when
-- `fetch_files` returns, every file of the node has a result, and a file is among the required
-- failures exactly if its result is an error and it is required.
pub fetch_files-IsSettled :
    (digests : Digests) (channel : Channel) (specs : Dict FileSpec) (q : Fetched)
    → are_distinct (keys specs) ≡ true
    → fetch_files digests channel specs ≡ ok q
    → All (IsSettled q) specs
unfolding fetch_files
fetch_files-IsSettled digests channel [] q d h = tt
fetch_files-IsSettled digests channel (spec ∷ specs) q d h = go channel.start h
  where
    go :
        (start : Option Raised)
        → (elim start [
          | some e ↦ channel_failed e (spec ∷ specs) no_files
          | none ↦ fetch_over digests channel (spec ∷ specs)
        ])
          ≡ ok q
        → All (IsSettled q) (spec ∷ specs)
    go (some e) g = failed_before digests channel (spec ∷ specs) d e q g
    go none g = fetch_over-IsSettled digests channel (spec ∷ specs) d q g
