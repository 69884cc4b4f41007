-- ===== src/Session/Replacing.antt =====
-- The changes of a write by replacement, one by one.
use tunstrap.Common.{
  ℕ, String, ◌≡◌, refl, ◌∙◌, ◌⊎◌, false, none, some, List, [], ◌∷◌, ◌++◌, ◌=t=◌, same_text,
}
use tunstrap.Common.Dict.{lookup, erase, lookup-insert, lookup-erase}
use tunstrap.Session.Files.{Files, Change, creates, appends, replaces, unlinks, change}

-- One property of the directory before, between and behind the changes, and one of it at the end.
abbrev pub Along : (Files → Type 0) → (Files → Type 0) → List Change → Files → Type 0
Along P Q [] d = P d × Q d
Along P Q (c ∷ cs) d = P d × Along P Q cs (change c d)

-- What a reader may see: the old file or the new one, and every other file as it was.
abbrev pub IsOldOrNew : String → String → List ℕ → Files → Files → Type 0
IsOldOrNew tmp name content d k =
    ((lookup name k ≡ lookup name d) ⊎ (lookup name k ≡ some content))
    × ((other : String)
        → (tmp =t= other) ≡ false
        → (name =t= other) ≡ false
        → lookup other k ≡ lookup other d)

-- The temporary file holds the first part, and nothing else has changed.
abbrev pub IsPartial : String → Files → List ℕ → Files → Type 0
IsPartial tmp d part k =
    (lookup tmp k ≡ some part)
    × ((other : String) → (tmp =t= other) ≡ false → lookup other k ≡ lookup other d)

module _ (tmp : String) (d : Files) where
  pub creates-IsPartial : IsPartial tmp d [] (change (creates tmp) d)
  unfolding change
  creates-IsPartial = (
    lookup-insert tmp tmp [] d ∙ rw same_text refl,
    λ other h. lookup-insert tmp other [] d ∙ rw h refl,
  )

  pub appends-IsPartial :
      (part chunk : List ℕ) (k : Files)
      → IsPartial tmp d part k
      → IsPartial tmp d (part ++ chunk) (change (appends tmp chunk) k)
  unfolding change
  appends-IsPartial part chunk k (here, beside) = (
    lookup-insert tmp tmp _ k ∙ rw (same_text, here) refl,
    λ other h. lookup-insert tmp other _ k ∙ rw h (beside other h),
  )

  pub replaces_tmp :
      (name : String) (part : List ℕ) (k : Files)
      → (tmp =t= name) ≡ false
      → (name =t= tmp) ≡ false
      → IsPartial tmp d part k
      → (lookup name (change (replaces tmp name) k) ≡ some part)
        × (lookup tmp (change (replaces tmp name) k) ≡ none)
        × ((other : String)
            → (tmp =t= other) ≡ false
            → (name =t= other) ≡ false
            → lookup other (change (replaces tmp name) k) ≡ lookup other d)
  unfolding change
  replaces_tmp name part k h g (here, beside) = (
    lookup-insert name name _ (erase tmp k) ∙ rw (same_text, here) refl,
    lookup-insert name tmp _ (erase tmp k) ∙ rw g (lookup-erase tmp tmp k ∙ rw same_text refl),
    λ other p q.
        lookup-insert name other _ (erase tmp k)
        ∙ rw q (lookup-erase tmp other k ∙ rw p (beside other p)),
  )

  pub unlinks_tmp :
      (part : List ℕ) (k : Files)
      → IsPartial tmp d part k
      → (lookup tmp (change (unlinks tmp) k) ≡ none)
        × ((other : String)
            → (tmp =t= other) ≡ false
            → lookup other (change (unlinks tmp) k) ≡ lookup other d)
  unfolding change
  unlinks_tmp part k (here, beside) = (
    lookup-erase tmp tmp k ∙ rw same_text refl,
    λ other p. lookup-erase tmp other k ∙ rw p (beside other p),
  )
