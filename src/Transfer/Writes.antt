-- ===== src/Transfer/Writes.antt =====
-- src/bench/libwayland-client.c: what `write_exact` and `raw_write_phase` put on the socket.
use wayring.Base.{
  ◌==◌, Bool-cases, length, take, drop, length-drop, take-append-drop, length-zero_of, joined, ℕ,
  zero, suc, ◌+◌, ◌-◌, ◌≤◌, ◌<◌, min, ◌≡◌, refl, sym, ap, ◌∙◌, inl, inr, List, [], ◌∷◌, ◌++◌,
  append_assoc, append-nil, arith,
}
use wayring.Transfer.{
  Taken, again, error, taken, sent, write_exact, storage_words, message_words, chunks_loop,
  raw_write_chunks,
}

-- The answers take `size` bytes, and then there are those of `rest`.
pub data Takes : List Taken → ℕ → List Taken → Type 0 where
  all_out : (rest : List Taken) → Takes rest 0 rest
  retry :
      (answers : List Taken) (size : ℕ) (rest : List Taken)
      → 0 < size
      → Takes answers size rest
      → Takes (again ∷ answers) size rest
  piece :
      (n : ℕ) (answers : List Taken) (size : ℕ) (rest : List Taken)
      → 0 < n
      → Takes answers size rest
      → Takes (taken n ∷ answers) (n + size) rest

nothing_left :
    (answers : List Taken) (left out : List ℕ)
    → length left ≡ 0
    → write_exact answers left out ≡ sent out answers
unfolding write_exact
nothing_left [] left out e = ground arith
nothing_left (again ∷ answers) left out e = ground arith
nothing_left (error ∷ answers) left out e = ground arith
nothing_left (taken n ∷ answers) left out e = ground arith

-- If the kernel takes all bytes, in pieces of any length with interruptions between them, `write_exact`
-- succeeds, and what went out is what it was given.
pub write_exact-Takes :
    {answers : List Taken} {size : ℕ} {rest : List Taken} (left out : List ℕ)
    → Takes answers size rest
    → length left ≡ size
    → write_exact answers left out ≡ sent (out ++ left) rest
unfolding write_exact
write_exact-Takes left out (all_out rest) e =
    nothing_left rest left out e
    ∙ ap (λ o. sent o rest) (sym (append-nil out) ∙ ap (◌++◌ out) (sym (length-zero_of left e)))
write_exact-Takes left out (retry answers size rest h t) e =
    ground (arith, write_exact-Takes left out t e)
write_exact-Takes left out (piece n answers size rest h t) e = ground (
  arith,
  write_exact-Takes (drop n left) (out ++ take n left) t (omega (arith, length-drop n left)),
  append_assoc out (take n left) (drop n left),
  take-append-drop n left,
)

sent_out : {o p : List ℕ} {q r : List Taken} → sent o q ≡ sent p r → o ≡ p
sent_out e = cc

ended :
    (answers : List Taken) (left out o : List ℕ) (rest : List Taken)
    → length left ≡ 0
    → sent out answers ≡ sent o rest
    → o ≡ out ++ left
ended answers left out o rest z e =
    sym (sent_out e) ∙ sym (append-nil out) ∙ ap (◌++◌ out) (sym (length-zero_of left z))

-- Whatever the kernel answers, if `write_exact` succeeds then exactly what it was given went out.
pub write_exact_only :
    (answers : List Taken) (left out o : List ℕ) (rest : List Taken)
    → write_exact answers left out ≡ sent o rest
    → o ≡ out ++ left
unfolding write_exact
write_exact_only [] left out o rest e = elim (Bool-cases (length left == 0)) [
  | inl none_left ↦ ended [] left out o rest (ground arith) (ground arith)
  | inr some_left ↦ absurd (ground arith)
]
write_exact_only (again ∷ answers) left out o rest e = elim (Bool-cases (length left == 0)) [
  | inl none_left ↦ ended (again ∷ answers) left out o rest (ground arith) (ground arith)
  | inr some_left ↦ write_exact_only answers left out o rest (ground arith)
]
write_exact_only (error ∷ answers) left out o rest e = elim (Bool-cases (length left == 0)) [
  | inl none_left ↦ ended (error ∷ answers) left out o rest (ground arith) (ground arith)
  | inr some_left ↦ absurd (ground arith)
]
write_exact_only (taken n ∷ answers) left out o rest e = elim (Bool-cases (length left == 0)) [
  | inl none_left ↦ ended (taken n ∷ answers) left out o rest (ground arith) (ground arith)
  | inr some_left ↦ elim (Bool-cases (n == 0)) [
    | inl stuck ↦ absurd (ground arith)
    | inr going ↦
        write_exact_only answers (drop n left) (out ++ take n left) o rest (ground arith)
        ∙ append_assoc out (take n left) (drop n left)
        ∙ ap (◌++◌ out) (take-append-drop n left)
  ]
]

pub storage_words-add :
    (a b sequence : ℕ)
    → storage_words (a + b) sequence ≡ storage_words a sequence ++ storage_words b sequence
unfolding storage_words
storage_words-add zero b sequence =
    ap (λ n. storage_words n sequence) {x = 0 + b} {y = b} (omega arith)
storage_words-add (suc a) b sequence =
    ap (λ n. storage_words n sequence) {x = suc a + b} {y = suc (a + b)} (omega arith)
    ∙ ap (◌++◌ (message_words sequence)) (storage_words-add a b sequence)
    ∙ sym (
        append_assoc (message_words sequence) (storage_words a sequence) (storage_words b sequence))

module _ (made : ℕ → List ℕ) (batch : ℕ) (made_none : made 0 ≡ [])
    (made-add : (a b : ℕ) → made (a + b) ≡ made a ++ made b) (positive : 0 < batch) where
  chunks_loop-joined :
      (fuel remaining : ℕ)
      → remaining ≤ fuel
      → joined (chunks_loop made fuel remaining batch) ≡ made remaining
  unfolding chunks_loop
  chunks_loop-joined zero remaining f =
      sym made_none ∙ ap made {x = 0} {y = remaining} (omega arith)
  chunks_loop-joined (suc fuel) remaining f = elim (Bool-cases (remaining == 0)) [
    | inl done ↦ rw done (sym made_none ∙ ap made {x = 0} {y = remaining} (ground arith))
    | inr more ↦ rw more (
        ap (◌++◌ (made (min remaining batch)))
          (chunks_loop-joined fuel (remaining - min remaining batch) (ground arith))
        ∙ sym (made-add (min remaining batch) (remaining - min remaining batch))
        ∙ ap made {x = min remaining batch + (remaining - min remaining batch)} {y = remaining}
            (omega arith))
  ]

  -- The chunks of a loop are, one behind the other, what would be written at once.
  pub chunks-joined : (count : ℕ) → joined (chunks_loop made count count batch) ≡ made count
  chunks-joined count = chunks_loop-joined count count (omega arith)

pub storage_words_none : (sequence : ℕ) → storage_words 0 sequence ≡ []
unfolding storage_words
storage_words_none sequence = refl

-- What `raw_write_phase` writes is `count` messages, one behind the other, whatever the batch is.
pub raw_write_chunks-joined :
    (count batch sequence : ℕ)
    → 0 < batch
    → joined (raw_write_chunks count batch sequence) ≡ storage_words count sequence
unfolding raw_write_chunks
raw_write_chunks-joined count batch sequence h =
    chunks-joined (λ n. storage_words n sequence) batch (storage_words_none sequence)
      (λ a b. storage_words-add a b sequence) h count

-- If `write_exact` succeeds, whatever the kernel answered, then what it was given went out, all of it
-- and in order; and it succeeds if the kernel takes all bytes, in pieces of any length with
-- interruptions between them.
pub write_exact_whole :
    (answers : List Taken) (left out : List ℕ) (rest : List Taken)
    → (write_exact answers left [] ≡ sent out rest → out ≡ left)
      × (Takes answers (length left) rest → write_exact answers left [] ≡ sent left rest)
write_exact_whole answers left out rest =
    (λ e. write_exact_only answers left [] out rest e, λ t. write_exact-Takes left [] t refl)
