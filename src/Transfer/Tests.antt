-- ===== src/Transfer/Tests.antt =====
-- src/bench/libwayland-client.c: transfers in pieces, and the theorems at them.
use wayring.Base.{◌≡◌, refl, List, [], ◌∷◌, arith}
use wayring.Transfer.{
  Answer, interrupted, failed, bytes, finished, read_exact, again, taken, sent, write_exact,
}
use wayring.Transfer.Reads.{Brings, Fits, read_exact_iff}

-- Four bytes in two pieces, with an interruption between.
abbrev pieces : List Answer
pieces = bytes (1 ∷ 2 ∷ 3 ∷ []) ∷ interrupted ∷ bytes (4 ∷ []) ∷ failed ∷ []

pieces_fit : Fits pieces 4
unfolding Fits
pieces_fit = (omega arith, (omega arith, tt))

read_exact_iff_example :
    (read_exact pieces 4 [] ≡ finished (1 ∷ 2 ∷ 3 ∷ 4 ∷ []) (failed ∷ [])
      → Brings pieces 4 (1 ∷ 2 ∷ 3 ∷ 4 ∷ []) (failed ∷ []))
    × (Brings pieces 4 (1 ∷ 2 ∷ 3 ∷ 4 ∷ []) (failed ∷ [])
        → read_exact pieces 4 [] ≡ finished (1 ∷ 2 ∷ 3 ∷ 4 ∷ []) (failed ∷ []))
read_exact_iff_example = read_exact_iff pieces 4 (1 ∷ 2 ∷ 3 ∷ 4 ∷ []) (failed ∷ []) pieces_fit

-- Both sides hold of it.
pieces_read : read_exact pieces 4 [] ≡ finished (1 ∷ 2 ∷ 3 ∷ 4 ∷ []) (failed ∷ [])
unfolding read_exact
pieces_read = refl

written_in_two :
    write_exact (taken 1 ∷ again ∷ taken 2 ∷ []) (7 ∷ 8 ∷ 9 ∷ []) [] ≡ sent (7 ∷ 8 ∷ 9 ∷ []) []
unfolding write_exact
written_in_two = refl
