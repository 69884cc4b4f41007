-- ===== src/Session/Atomic.antt =====
-- A file that is written by replacement: what a reader sees of it at any time.
use tunstrap.Common.{
  ℕ, String, ◌≡◌, refl, sym, ap, ◌∙◌, inl, inr, Bool-cases, Bool, true, false, none, some, List, [],
  ◌∷◌, ◌++◌, Result, ok, err, if◌then◌else◌, ◌=t=◌, wrapped_differs, eq_iff,
}
use mathlib.Core.Path.{subst}
use mathlib.Core.List.{append_assoc, append-nil}
use tunstrap.Common.Dict.{lookup}
use tunstrap.Fdio.{WriteError, Written, write_all}
use tunstrap.Fdio.Progress.{joined, Accounts, write_all-Accounts}
use tunstrap.Session.Files.{
  Files, Change, creates, appends, replaces, change, Disk, is_complete, FileError, os_error,
  file_exists, temp_name, appended, undone, replace_with, write_temp, is_there, open_temp, closing,
  atomic_write,
}
use tunstrap.Session.Replacing.{
  Along, IsOldOrNew, IsPartial, creates-IsPartial, appends-IsPartial, replaces_tmp, unlinks_tmp,
}

complete-ok :
    (disk : Disk) (r : Result WriteError (Unit {0})) → is_complete disk r ≡ true → r ≡ ok tt
complete-ok disk (ok tt) h = refl
complete-ok disk (err e) h = cc

-- What a write leaves: the new file, or the old one.
abbrev pub IsEnd :
    Disk → String → String → List ℕ → Files → Result FileError (Unit {0}) → Files → Type 0
IsEnd disk tmp name content d (ok _) k = (lookup name k ≡ some content) × (lookup tmp k ≡ none)
IsEnd disk tmp name content d (err e) k =
    (disk.close_works ≡ true → lookup name k ≡ lookup name d)
    × (lookup tmp d ≡ none → disk.unlink_works ≡ true → lookup tmp k ≡ none)

module _ (disk : Disk) (tmp name : String) (content : List ℕ) (d : Files)
    (h : (tmp =t= name) ≡ false) (g : (name =t= tmp) ≡ false) where
  partial_seen :
      (part : List ℕ) (k : Files) → IsPartial tmp d part k → IsOldOrNew tmp name content d k
  partial_seen part k (here, beside) = (inl (beside name h), λ other p q. beside other p)

  appended-Along :
      (Q : Files → Type 0) (chunks : List (List ℕ)) (part : List ℕ) (k : Files) (more : List Change)
      → IsPartial tmp d part k
      → ((j : Files)
          → IsPartial tmp d (part ++ joined chunks) j
          → Along (IsOldOrNew tmp name content d) Q more j)
      → Along (IsOldOrNew tmp name content d) Q (appended tmp chunks ++ more) k
  appended-Along Q [] part k more now next =
      next k (subst (λ x. IsPartial tmp d x k) (sym (append-nil part)) now)
  appended-Along Q (chunk ∷ chunks) part k more now next = (
    partial_seen part k now,
    appended-Along Q chunks (part ++ chunk) (change (appends tmp chunk) k) more
        (appends-IsPartial tmp d part chunk k now)
        (λ j there.
          next j
            (subst (λ x. IsPartial tmp d x j) (append_assoc part chunk (joined chunks)) there)),
  )

  replaced-IsEnd :
      (works : Bool) (k : Files)
      → disk.close_works ≡ works
      → lookup name k ≡ some content
      → lookup tmp k ≡ none
      → IsEnd disk tmp name content d (closing works (ok tt)) k
  replaced-IsEnd true k same there gone = (there, gone)
  replaced-IsEnd false k same there gone = (λ works. cc, λ free works. gone)

  replaced-Along :
      (part : List ℕ) (k : Files)
      → part ≡ content
      → IsPartial tmp d part k
      → Along
          (IsOldOrNew tmp name content d)
          (IsEnd disk tmp name content d (closing disk.close_works (ok tt)))
          (replaces tmp name ∷ [])
          k
  replaced-Along part k whole now =
      let (there, gone, beside) = replaces_tmp tmp d name part k h g now in
      (
        partial_seen part k now,
        (
          (inr (there ∙ ap some whole), beside),
          replaced-IsEnd disk.close_works (change (replaces tmp name) k) refl
              (there ∙ ap some whole) gone,
        ),
      )

  undone-Along :
      (e : FileError) (part : List ℕ) (k : Files)
      → IsPartial tmp d part k
      → Along
          (IsOldOrNew tmp name content d)
          (IsEnd disk tmp name content d (err e))
          (undone disk.unlink_works tmp)
          k
  undone-Along e part k now = go disk.unlink_works refl
    where
      go :
          (works : Bool)
          → disk.unlink_works ≡ works
          → Along
              (IsOldOrNew tmp name content d)
              (IsEnd disk tmp name content d (err e))
              (undone works tmp)
              k
      go true same =
          let (gone, beside) = unlinks_tmp tmp d part k now in
          (
            partial_seen part k now,
            (
              (inl (beside name h), λ other p q. beside other p),
              (λ closed. beside name h, λ free works. gone),
            ),
          )
      go false same =
          let (here, beside) = now in
          (partial_seen part k now, (λ closed. beside name h, λ free works. cc))

  write_temp-Along :
      (w : Written)
      → Accounts content w
      → Along
          (IsOldOrNew tmp name content d)
          (IsEnd disk tmp name content d (write_temp disk name tmp w).result)
          (write_temp disk name tmp w).trace
          d
  unfolding write_temp replace_with
  write_temp-Along w (rest, all, enough, done, short) = go (is_complete disk w.result) refl
    where
      start : IsOldOrNew tmp name content d d
      start = (inl refl, λ other p q. refl)

      go :
          (complete : Bool)
          → is_complete disk w.result ≡ complete
          → Along
              (IsOldOrNew tmp name content d)
              (IsEnd disk tmp name content d
                (replace_with disk name tmp (creates tmp ∷ appended tmp w.chunks) complete).result)
              (replace_with disk name tmp (creates tmp ∷ appended tmp w.chunks) complete).trace
              d
      go true same = (
        start,
        appended-Along (IsEnd disk tmp name content d (closing disk.close_works (ok tt))) w.chunks
            [] (change (creates tmp) d) (replaces tmp name ∷ []) (creates-IsPartial tmp d)
            (λ j there.
              replaced-Along (joined w.chunks) j
                (sym (
                  all
                  ∙ ap (λ r. joined w.chunks ++ r) (done (complete-ok disk w.result same))
                  ∙ append-nil (joined w.chunks)))
                there),
      )
      go false same = (
        start,
        appended-Along (IsEnd disk tmp name content d (err os_error)) w.chunks []
            (change (creates tmp) d) (undone disk.unlink_works tmp) (creates-IsPartial tmp d)
            (λ j there. undone-Along os_error (joined w.chunks) j there),
      )

-- A write by replacement refines the replacement in one step: in every state that a reader may meet,
-- or that a process leaves which is killed in the middle, the file is the old one or has the new
-- content to its end, and no other file but the temporary one differs. When it returns, the file has
-- the content and no temporary file is left. When it raises, the file is the old one unless it is the
-- closing of the descriptor that fails, and if there was no temporary file before and the unlinking
-- works, there is none left.
pub atomic_write-IsOldOrNew :
    (disk : Disk) (pid name : String) (d : Files) (content : List ℕ)
    → Along
        (IsOldOrNew (temp_name name pid) name content d)
        (IsEnd disk
          (temp_name name pid)
          name
          content
          d
          (atomic_write disk pid d name content).result)
        (atomic_write disk pid d name content).trace
        d
unfolding atomic_write open_temp
atomic_write-IsOldOrNew disk pid name d content =
    if_made disk.mkdir_works (is_there (lookup (temp_name name pid) d)) disk.create_works
  where
    refused :
        (e : FileError)
        → Along
            (IsOldOrNew (temp_name name pid) name content d)
            (IsEnd disk (temp_name name pid) name content d (err e))
            []
            d
    refused e = ((inl refl, λ other p q. refl), (λ closed. refl, λ free works. free))

    tmp_differs : (temp_name name pid =t= name) ≡ false
    tmp_differs = wrapped_differs "." name _ refl

    name_differs : (name =t= temp_name name pid) ≡ false
    name_differs = elim (Bool-cases (name =t= temp_name name pid)) [
      | inl e ↦ cc (
          sym tmp_differs
          ∙ (eq_iff (temp_name name pid) name).1 (sym ((eq_iff name (temp_name name pid)).0 e)))
      | inr e ↦ e
    ]

    opened :
        (taken works : Bool)
        → Along
            (IsOldOrNew (temp_name name pid) name content d)
            (IsEnd disk
              (temp_name name pid)
              name
              content
              d
              (open_temp disk name (temp_name name pid) content taken works).result)
            (open_temp disk name (temp_name name pid) content taken works).trace
            d
    opened true works = refused file_exists
    opened false false = refused os_error
    opened false true =
        write_temp-Along disk (temp_name name pid) name content d tmp_differs name_differs
          (write_all disk.write content) (write_all-Accounts disk.write content)

    if_made :
        (made taken works : Bool)
        → (let run =
              if made
              then open_temp disk name (temp_name name pid) content taken works
              else record { result = err os_error; trace = [] } in
            Along
              (IsOldOrNew (temp_name name pid) name content d)
              (IsEnd disk (temp_name name pid) name content d run.result)
              run.trace
              d)
    if_made true taken works = opened taken works
    if_made false taken works = refused os_error
