-- ===== src/Fetcher/Escapes.antt =====
-- Which exceptions leave `fetch_files`.
use tunstrap.Common.{String, ◌≡◌, refl, none, some, [], ◌∷◌, Result, ok, err, ◌>>=◌}
use tunstrap.Common.Dict.{Dict}
use tunstrap.Fetcher.{
  Raised, sftp_error, transport_error, program_error, FileSpec, Answer, Channel, Digests, Fetched,
  no_files, add_file, record_channel_failure, classify_error, channel_failed, failure, Reading,
  content, cap_exceeded, finish_file, read_remote_file, fetch_one, fetch_from, fetch_over,
  fetch_files,
}

abbrev pub OnlyProgramError {ℓ} : {A : Type ℓ} → Result Raised A → Type 0
OnlyProgramError (ok a) = Unit
OnlyProgramError (err e) = e ≡ program_error

handled :
    {A : Type 0} (e : Raised) (handle : String → A)
    → OnlyProgramError (elim (classify_error e) [ none ↦ err e | some code ↦ ok (handle code) ])
unfolding classify_error
handled (sftp_error code) handle = tt
handled (transport_error name) handle = tt
handled program_error handle = refl

channel_failed-OnlyProgramError :
    (e : Raised) (specs : Dict FileSpec) (p : Fetched) → OnlyProgramError (channel_failed e specs p)
unfolding channel_failed
channel_failed-OnlyProgramError e specs p = handled e λ code. record_channel_failure code specs p

>>=-OnlyProgramError :
    {A B : Type 0} (m : Result Raised A) (next : A → Result Raised B)
    → OnlyProgramError m
    → ((a : A) → OnlyProgramError (next a))
    → OnlyProgramError (m >>= next)
>>=-OnlyProgramError (ok a) next h further = further a
>>=-OnlyProgramError (err e) next h further = h

module _ (digests : Digests) where
  finish_file-OnlyProgramError :
      (r : Result Raised Reading) → OnlyProgramError (finish_file digests r)
  unfolding finish_file
  finish_file-OnlyProgramError (ok cap_exceeded) = tt
  finish_file-OnlyProgramError (ok (content raw)) = tt
  finish_file-OnlyProgramError (err e) = handled e failure

  fetch_one-OnlyProgramError : (a : Answer) → OnlyProgramError (fetch_one digests a)
  unfolding fetch_one
  fetch_one-OnlyProgramError a = finish_file-OnlyProgramError (read_remote_file a)

  fetch_from-OnlyProgramError :
      (answer : String → Answer) (specs : Dict FileSpec) (p : Fetched)
      → OnlyProgramError (fetch_from digests answer specs p)
  unfolding fetch_from
  fetch_from-OnlyProgramError answer [] p = tt
  fetch_from-OnlyProgramError answer ((n, s) ∷ specs) p =
      >>=-OnlyProgramError (fetch_one digests (answer n)) _ (fetch_one-OnlyProgramError (answer n))
        λ f. fetch_from-OnlyProgramError answer specs (add_file n s f p)

  fetch_over-OnlyProgramError :
      (channel : Channel) (specs : Dict FileSpec)
      → OnlyProgramError (fetch_over digests channel specs)
  unfolding fetch_over
  fetch_over-OnlyProgramError channel specs =
      elim channel.enter
        as (λ enter. OnlyProgramError (elim enter [
          | some e ↦ channel_failed e specs no_files
          | none ↦ fetch_from digests channel.answer specs no_files >>= λ p. elim channel.leave [
            | none ↦ ok p
            | some e ↦ channel_failed e specs p
          ]
        ])) [
          | some e ↦ channel_failed-OnlyProgramError e specs no_files
          | none ↦
              >>=-OnlyProgramError (fetch_from digests channel.answer specs no_files) _
                (fetch_from-OnlyProgramError channel.answer specs no_files)
                λ p.
                  elim channel.leave
                    as (λ leave.
                      OnlyProgramError
                        (elim leave [ none ↦ ok p | some e ↦ channel_failed e specs p ])) [
                          | none ↦ tt
                          | some e ↦ channel_failed-OnlyProgramError e specs p
                        ]
        ]

-- `fetch_files` returns whatever SFTP raises: the only exception that leaves it is one that is none
-- of the transport errors that the module names.
pub fetch_files-OnlyProgramError :
    (digests : Digests) (channel : Channel) (specs : Dict FileSpec)
    → OnlyProgramError (fetch_files digests channel specs)
unfolding fetch_files
fetch_files-OnlyProgramError digests channel [] = tt
fetch_files-OnlyProgramError digests channel (spec ∷ specs) =
    elim channel.start
      as (λ start. OnlyProgramError (elim start [
        | some e ↦ channel_failed e (spec ∷ specs) no_files
        | none ↦ fetch_over digests channel (spec ∷ specs)
      ])) [
        | some e ↦ channel_failed-OnlyProgramError e (spec ∷ specs) no_files
        | none ↦ fetch_over-OnlyProgramError digests channel (spec ∷ specs)
      ]
