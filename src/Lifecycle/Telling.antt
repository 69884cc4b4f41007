-- ===== src/Lifecycle/Telling.antt =====
-- What `stop` says of the data that it keeps.
use tunstrap.Common.{
  ℕ, String, ◌≡◌, ◌⊎◌, Bool, true, false, ◌||◌, not, List, [], ◌∷◌, ℤ, ok, err, if◌then◌else◌,
  ◌=t=◌,
}
use tunstrap.Identity.{Raised, unicode_decode_error}
use tunstrap.Stop.{System, stop_session}
use tunstrap.Lifecycle.{PidFile, undecodable, read_identity, Json, Effect}

abbrev pub has_key : String → List (String × Json) → Bool
has_key key [] = false
has_key key ((k, v) ∷ more) = k =t= key || has_key key more

-- `stop` returns and tells of the data that it keeps, or an exception leaves it.
abbrev pub IsTold : PidFile → ℤ → System → Effect → Type 0
IsTold file grace sys e =
    ((code : ℕ) × (e.ending ≡ ok code)
      × (has_key "preserved" e.envelope ≡ not e.removes_data)
      × (e.notice ≡ not e.removes_data)
      × (code ≡ (if e.removes_data then 0 else 1)))
    ⊎ ((x : Raised) × (e.ending ≡ err x)
        × (e.removes_data ≡ false)
        × (e.envelope ≡ [])
        × (e.notice ≡ false)
        × (((file ≡ undecodable) × (x ≡ unicode_decode_error))
            ⊎ ((pid : ℤ) × (read_identity file ≡ ok pid)
                × ((stop_session pid grace true sys).outcome ≡ err x))))
