-- ===== src/Fdio/Progress.antt =====
-- The loop that writes everything ends, and what it has written.
use tunstrap.Common.{
  ℕ, zero, suc, ◌+◌, ◌≡◌, ◌≢◌, ◌≤◌, refl, sym, ap, ◌∙◌, List, [], ◌∷◌, ◌++◌, ok, err, arith, length,
  drop,
}
use mathlib.Core.List.{append_assoc}
use tunstrap.Fdio.{
  Write, wrote, failed, short_write, no_fuel, Written, take, on_write, write_loop, write_all,
}

abbrev pub joined : List (List ℕ) → List ℕ
joined [] = []
joined (chunk ∷ chunks) = chunk ++ joined chunks

-- What is written and what remains are the content; the result says which.
abbrev pub Accounts : List ℕ → Written → Type 0
Accounts content w =
    (rest : List ℕ) × (content ≡ joined w.chunks ++ rest)
    × (w.result ≢ err no_fuel)
    × (w.result ≡ ok tt → rest ≡ [])
    × ((n : ℕ) → w.result ≡ err (short_write n) → n ≡ length rest)

take-drop : (n : ℕ) (xs : List ℕ) → xs ≡ take n xs ++ drop n xs
take-drop zero xs = refl
take-drop (suc n) [] = refl
take-drop (suc n) (x ∷ xs) = ap (λ r. x ∷ r) (take-drop n xs)

length-drop_le : (n : ℕ) (xs : List ℕ) → length (drop n xs) ≤ length xs
length-drop_le zero xs = omega arith
length-drop_le (suc n) [] = omega arith
length-drop_le (suc n) (x ∷ xs) = let rest = length-drop_le n xs in omega arith

on_write-Accounts :
    (answer : Write) (b : ℕ) (bs : List ℕ) (next : Written)
    → ((n : ℕ) → answer ≡ wrote (suc n) → Accounts (drop (suc n) (b ∷ bs)) next)
    → Accounts (b ∷ bs) (on_write answer (b ∷ bs) next)
unfolding on_write
on_write-Accounts (failed errno) b bs next h = (b ∷ bs, refl, λ e. cc, λ e. cc, λ n e. cc)
on_write-Accounts (wrote zero) b bs next h = (b ∷ bs, refl, λ e. cc, λ e. cc, λ n e. cc)
on_write-Accounts (wrote (suc n)) b bs next h =
    let (rest, all, enough, done, short) = h n refl in
    (
      rest,
      take-drop (suc n) (b ∷ bs)
          ∙ ap (λ r. take (suc n) (b ∷ bs) ++ r) all
          ∙ sym (append_assoc (take (suc n) (b ∷ bs)) (joined next.chunks) rest),
      enough,
      done,
      short,
    )

write_loop-Accounts :
    (fuel : ℕ) (os : ℕ → Write) (i : ℕ) (content : List ℕ)
    → length content ≤ fuel
    → Accounts content (write_loop fuel os i content)
unfolding write_loop
write_loop-Accounts fuel os i [] h = ([], refl, λ e. cc, λ e. refl, λ n e. cc)
write_loop-Accounts zero os i (b ∷ bs) h = let no : zero ≡ suc zero = omega arith in cc
write_loop-Accounts (suc fuel) os i (b ∷ bs) h = on_write-Accounts (os i) b bs _ (λ n same.
    rw same (
      let shorter = length-drop_le n bs in
      write_loop-Accounts fuel os (i + 1) (drop n bs) (omega arith)))

-- `write_all` ends with a write for each byte at most, whatever `os.write` answers. What it has
-- written is a beginning of the content: all of it if it returns, and when it raises
-- `ShortWriteError`, the error tells how many bytes remain.
pub write_all-Accounts :
    (os : ℕ → Write) (content : List ℕ) → Accounts content (write_all os content)
unfolding write_all
write_all-Accounts os content = write_loop-Accounts (length content) os 0 content (omega arith)
