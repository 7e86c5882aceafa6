-- ===== src/Transfer/Reads.antt =====
-- src/bench/libwayland-client.c: what `read_exact` reads, however the kernel cuts the stream.
use wayring.Base.{
  ◌==◌, Bool-cases, length, ℕ, zero, suc, ◌+◌, ◌-◌, ◌≤◌, ◌<◌, ◌≡◌, refl, sym, ap, subst, ◌∙◌, inl,
  inr, List, [], ◌∷◌, ◌++◌, append_assoc, append-nil, arith,
}
use wayring.Transfer.{Answer, interrupted, failed, bytes, finished, read_exact}

-- The answers bring the bytes `wire`, `size` in all, and then there are those of `rest`.
pub data Brings : List Answer → ℕ → List ℕ → List Answer → Type 0 where
  whole : (rest : List Answer) → Brings rest 0 [] rest
  retry :
      (answers : List Answer) (size : ℕ) (wire : List ℕ) (rest : List Answer)
      → 0 < size
      → Brings answers size wire rest
      → Brings (interrupted ∷ answers) size wire rest
  piece :
      (xs : List ℕ) (answers : List Answer) (size : ℕ) (wire : List ℕ) (rest : List Answer)
      → 0 < length xs
      → Brings answers size wire rest
      → Brings (bytes xs ∷ answers) (length xs + size) (xs ++ wire) rest

read_exact_zero :
    (answers : List Answer) (got : List ℕ) → read_exact answers 0 got ≡ finished got answers
unfolding read_exact
read_exact_zero [] got = refl
read_exact_zero (interrupted ∷ answers) got = refl
read_exact_zero (failed ∷ answers) got = refl
read_exact_zero (bytes xs ∷ answers) got = refl

pub read_exact-Brings :
    {answers : List Answer} {size : ℕ} {wire : List ℕ} {rest : List Answer} (got : List ℕ)
    → Brings answers size wire rest
    → read_exact answers size got ≡ finished (got ++ wire) rest
unfolding read_exact
read_exact-Brings got (whole rest) =
    read_exact_zero rest got ∙ ap (λ g. finished g rest) (sym (append-nil got))
read_exact-Brings got (retry answers size wire rest h b) = ground (arith, read_exact-Brings got b)
read_exact-Brings got (piece xs answers size wire rest h b) =
    ground (arith, shift, read_exact-Brings (got ++ xs) b, append_assoc got xs wire)
  where
    shift :
        read_exact answers (length xs + size - length xs) (got ++ xs)
        ≡ read_exact answers size (got ++ xs)
    shift =
        ap (λ n. read_exact answers n (got ++ xs)) {x = length xs + size - length xs} {y = size}
          (omega arith)

-- No read gives more than it was asked for.
unfoldable pub Fits : List Answer → ℕ → Type 0
Fits [] size = Unit
Fits (interrupted ∷ answers) size = Fits answers size
Fits (failed ∷ answers) size = Unit
Fits (bytes xs ∷ answers) size = (length xs ≤ size) × Fits answers (size - length xs)

abbrev Outcome : List Answer → ℕ → List ℕ → List ℕ → List Answer → Type 0
Outcome answers size got g rest =
    (wire : List ℕ) × (Brings answers size wire rest × (g ≡ got ++ wire))

finished_got : {g h : List ℕ} {q r : List Answer} → finished g q ≡ finished h r → (g ≡ h) × (q ≡ r)
finished_got e = (cc, cc)

at_zero :
    (answers : List Answer) (got g : List ℕ) (rest : List Answer)
    → finished got answers ≡ finished g rest
    → Outcome answers 0 got g rest
at_zero answers got g rest e =
    let (same_got, same_rest) = finished_got e in
    (
      [],
      (
        subst (λ r. Brings answers 0 [] r) same_rest (whole answers),
        sym same_got ∙ sym (append-nil got),
      ),
    )

read_exact_only :
    (answers : List Answer) (size : ℕ) (got g : List ℕ) (rest : List Answer)
    → Fits answers size
    → read_exact answers size got ≡ finished g rest
    → Outcome answers size got g rest
unfolding read_exact Fits
read_exact_only [] zero got g rest f e = at_zero [] got g rest e
read_exact_only [] (suc n) got g rest f e = absurd (ground arith)
read_exact_only (interrupted ∷ answers) zero got g rest f e =
    at_zero (interrupted ∷ answers) got g rest e
read_exact_only (interrupted ∷ answers) (suc n) got g rest f e =
    let (wire, (b, split)) = read_exact_only answers (suc n) got g rest f (ground arith) in
    (wire, (retry answers (suc n) wire rest (omega arith) b, split))
read_exact_only (failed ∷ answers) zero got g rest f e = at_zero (failed ∷ answers) got g rest e
read_exact_only (failed ∷ answers) (suc n) got g rest f e = absurd (ground arith)
read_exact_only (bytes xs ∷ answers) zero got g rest f e = at_zero (bytes xs ∷ answers) got g rest e
read_exact_only (bytes xs ∷ answers) (suc n) got g rest f e = elim (Bool-cases (length xs == 0)) [
  | inl nothing ↦ absurd (ground arith)
  | inr something ↦
      let (wire, (b, split)) =
        read_exact_only answers (suc n - length xs) (got ++ xs) g rest f.1 (ground arith) in
      (
        xs ++ wire,
        (
          subst (λ m. Brings (bytes xs ∷ answers) m (xs ++ wire) rest)
              {x = length xs + (suc n - length xs)} {y = suc n} (omega (arith, f.0))
              (piece xs answers (suc n - length xs) wire rest (ground arith) b),
          split ∙ append_assoc got xs wire,
        ),
      )
]

-- With a kernel that never gives more than it is asked for, `read_exact` returns success with some
-- bytes exactly when the answers bring those bytes, as many as asked for, in pieces of any length with
-- interruptions between them.
pub read_exact_iff :
    (answers : List Answer) (size : ℕ) (wire : List ℕ) (rest : List Answer)
    → Fits answers size
    → (read_exact answers size [] ≡ finished wire rest → Brings answers size wire rest)
      × (Brings answers size wire rest → read_exact answers size [] ≡ finished wire rest)
read_exact_iff answers size wire rest f = (
  λ e.
      let (w, (b, split)) = read_exact_only answers size [] wire rest f e in
      subst (λ v. Brings answers size v rest) (sym split) b,
  λ b. read_exact-Brings [] b,
)
