-- ===== src/Kube/Document/Finding.antt =====
-- The first entry with a name as a relation, and how updates of a sequence carry it along.
use mathlib.Core.Path.{subst}
use tunstrap.Common.{
  ℕ, zero, suc, String, ◌≡◌, refl, ap, inl, inr, Bool-cases, Bool, true, false, Option, none, some,
}
use tunstrap.Kube.Document.{
  Value, Items, Fields, null, scalar, text, seq, mapping, nil, item, get, is_text, one_later,
  find_in, update_at,
}

-- Whether the loop of `_find_named` stops at an entry.
abbrev pub has_name : String → Value → Bool
has_name name (mapping e) = is_text name (get "name" e)
has_name name _ = false

pub data Finds : Items → String → ℕ → Fields → Type 0 where
  first :
      {e : Fields} {vs : Items} {name : String}
      → has_name name (mapping e) ≡ true
      → Finds (item (mapping e) vs) name zero e
  later :
      {v : Value} {e : Fields} {vs : Items} {name : String} {i : ℕ}
      → has_name name v ≡ false
      → Finds vs name i e
      → Finds (item v vs) name (suc i) e

pub data Absent : Items → String → Type 0 where
  empty : {name : String} → Absent nil name
  step :
      {v : Value} {vs : Items} {name : String}
      → has_name name v ≡ false
      → Absent vs name
      → Absent (item v vs) name

abbrev Outcome : Items → String → Option (ℕ × Fields) → Type 0
Outcome vs name none = Absent vs name
Outcome vs name (some (i, e)) = Finds vs name i e

Outcome-later :
    (v : Value) (vs : Items) (name : String) (r : Option (ℕ × Fields))
    → has_name name v ≡ false
    → Outcome vs name r
    → Outcome (item v vs) name (one_later r)
Outcome-later v vs name none h o = step h o
Outcome-later v vs name (some (i, e)) h o = later h o

find_in-Outcome : (vs : Items) (name : String) → Outcome vs name (find_in vs name)
unfolding find_in
find_in-Outcome nil name = empty
find_in-Outcome (item (mapping e) vs) name = elim (Bool-cases (is_text name (get "name" e))) [
  | inl p ↦ rw p (first p)
  | inr p ↦ rw p (Outcome-later (mapping e) vs name _ p (find_in-Outcome vs name))
]
find_in-Outcome (item null vs) name = Outcome-later null vs name _ refl (find_in-Outcome vs name)
find_in-Outcome (item (scalar b s) vs) name =
    Outcome-later (scalar b s) vs name _ refl (find_in-Outcome vs name)
find_in-Outcome (item (text s) vs) name =
    Outcome-later (text s) vs name _ refl (find_in-Outcome vs name)
find_in-Outcome (item (seq s) vs) name =
    Outcome-later (seq s) vs name _ refl (find_in-Outcome vs name)

pub find_in-Finds :
    (vs : Items) (name : String) (i : ℕ) (e : Fields)
    → find_in vs name ≡ some (i, e)
    → Finds vs name i e
find_in-Finds vs name i e h = subst (Outcome vs name) h (find_in-Outcome vs name)

pub find_in-Absent : (vs : Items) (name : String) → find_in vs name ≡ none → Absent vs name
find_in-Absent vs name h = subst (Outcome vs name) h (find_in-Outcome vs name)

pub find_in_of_Finds :
    {vs : Items} {name : String} {i : ℕ} {e : Fields}
    → Finds vs name i e
    → find_in vs name ≡ some (i, e)
unfolding find_in
find_in_of_Finds (first p) = rw p
find_in_of_Finds (later {v = mapping d} p f) = rw p (ap one_later (find_in_of_Finds f))
find_in_of_Finds (later {v = null} p f) = ap one_later (find_in_of_Finds f)
find_in_of_Finds (later {v = scalar b s} p f) = ap one_later (find_in_of_Finds f)
find_in_of_Finds (later {v = text s} p f) = ap one_later (find_in_of_Finds f)
find_in_of_Finds (later {v = seq s} p f) = ap one_later (find_in_of_Finds f)

pub find_in_of_Absent : {vs : Items} {name : String} → Absent vs name → find_in vs name ≡ none
unfolding find_in
find_in_of_Absent empty = refl
find_in_of_Absent (step {v = mapping d} p a) = rw p (ap one_later (find_in_of_Absent a))
find_in_of_Absent (step {v = null} p a) = ap one_later (find_in_of_Absent a)
find_in_of_Absent (step {v = scalar b s} p a) = ap one_later (find_in_of_Absent a)
find_in_of_Absent (step {v = text s} p a) = ap one_later (find_in_of_Absent a)
find_in_of_Absent (step {v = seq s} p a) = ap one_later (find_in_of_Absent a)

pub Finds-name :
    {vs : Items} {name : String} {i : ℕ} {e : Fields}
    → Finds vs name i e
    → is_text name (get "name" e) ≡ true
Finds-name (first p) = p
Finds-name (later p f) = Finds-name f

module _ (change : Fields → Fields) where
  -- Renaming the first entry of a name to a name that no entry has.
  pub Finds-update_new :
      {vs : Items} {name : String} {i : ℕ} {e : Fields} (new : String)
      → Finds vs name i e
      → Absent vs new
      → is_text new (get "name" (change e)) ≡ true
      → Finds (update_at i change vs) new i (change e)
  unfolding update_at
  Finds-update_new new (first p) (step q a) renamed = first renamed
  Finds-update_new new (later p f) (step q a) renamed = later q (Finds-update_new new f a renamed)

  -- A change that keeps the name.
  pub Finds-update_kept :
      {vs : Items} {name : String} {i : ℕ} {e : Fields}
      → Finds vs name i e
      → get "name" (change e) ≡ get "name" e
      → Finds (update_at i change vs) name i (change e)
  unfolding update_at
  Finds-update_kept (first p) kept = first (rw kept p)
  Finds-update_kept (later p f) kept = later p (Finds-update_kept f kept)

  pub Absent-update_kept :
      {vs : Items} {name : String} {i : ℕ} {e : Fields} (other : String)
      → Finds vs name i e
      → Absent vs other
      → get "name" (change e) ≡ get "name" e
      → Absent (update_at i change vs) other
  unfolding update_at
  Absent-update_kept other (first p) (step q a) kept = step (rw kept q) a
  Absent-update_kept other (later p f) (step q a) kept = step q (Absent-update_kept other f a kept)
