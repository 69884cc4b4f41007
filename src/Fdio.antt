-- ===== src/Fdio.antt =====
-- tunstrap/fdio.py: write_all. What `os.write` answers to each call is a function of its number.
pub mod Progress
use tunstrap.Common.{
  ℕ, zero, suc, ◌+◌, ◌≡◌, ◌≤◌, refl, ap, ◌∙◌, Bool, true, false, List, [], ◌∷◌, ◌++◌, Result, ok,
  err, arith, length, drop, if◌then◌else◌,
}

-- It writes so many bytes, or raises.
pub data Write : Type 0 where
  wrote : ℕ → Write
  failed : ℕ → Write

-- `ShortWriteError` with what remains, and another `OSError`; `no_fuel` stands for a loop that goes on.
pub data WriteError : Type 0 where
  short_write : ℕ → WriteError
  os_error : ℕ → WriteError
  no_fuel : WriteError

pub record Written : Type 0 where
  pub result : Result WriteError (Unit {0})
  pub chunks : List (List ℕ)

abbrev pub take : ℕ → List ℕ → List ℕ
take zero xs = []
take (suc n) [] = []
take (suc n) (x ∷ xs) = x ∷ take n xs

abbrev pub count_of : Write → ℕ
count_of (wrote n) = n
count_of (failed errno) = 0

-- What one answer makes of the content, with what the rest of the loop gives.
unfoldable pub on_write : Write → List ℕ → Written → Written
on_write (failed errno) content next = record { result = err (os_error errno); chunks = [] }
on_write (wrote zero) content next = record {
  result = err (short_write (length content));
  chunks = [];
}
on_write (wrote (suc n)) content next = record {
  result = next.result;
  chunks = take (suc n) content ∷ next.chunks;
}

unfoldable pub write_loop : ℕ → (ℕ → Write) → ℕ → List ℕ → Written
unfolding on_write
write_loop fuel os i [] = record { result = ok tt; chunks = [] }
write_loop zero os i (b ∷ bs) = record { result = err no_fuel; chunks = [] }
write_loop (suc fuel) os i (b ∷ bs) =
    on_write (os i) (b ∷ bs) (write_loop fuel os (i + 1) (drop (count_of (os i)) (b ∷ bs)))

-- `write_all`
unfoldable pub write_all : (ℕ → Write) → List ℕ → Written
unfolding write_loop
write_all os content = write_loop (length content) os 0 content
