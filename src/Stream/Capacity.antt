-- ===== src/Stream/Capacity.antt =====
-- src/stream.zig, `ensureCapacity`: what it keeps, whatever its pool answers.
use wayring.Base.{
  ltb, leb, leb→le, Bool-cases, length, take, drop, length-append, length-take, length-drop,
  take-append_exact, Result, ok, err, ℕ, ◌+◌, ◌≤◌, ◌<◌, ◌≡◌, refl, sym, ap, subst, ◌∙◌, inl, inr,
  true, false, ◌&&◌, Option, none, some, List, arith,
}
use wayring.Stream.{
  BlockPool, State, memcpy, held, is_none, init, init_shared, lease_block, ensure_capacity,
}

module _ (blocks : BlockPool) where
  -- The fragment fits the scratch space, and a framer that could switch to its inline bytes holds none.
  pub record IsReady (s : State blocks) : Type 0 where
    pub fits : s.buffered ≤ length s.scratch
    pub fresh :
        s.shared ≡ true
        → s.lease ≡ none
        → length s.scratch < length s.inline_scratch
        → s.buffered ≡ 0

  -- A fresh framer is ready.
  init-IsReady :
      (scratch inline_scratch input : List ℕ) (pool : blocks.Pool)
      → IsReady (record { framer = init blocks scratch inline_scratch; input = input; pool = pool })
  unfolding init
  init-IsReady scratch inline_scratch input pool = record {
    fits = omega arith;
    fresh = λ shared lease less. refl;
  }

  init_shared-IsReady :
      (inline_scratch input : List ℕ) (pool : blocks.Pool)
      → IsReady (record { framer = init_shared blocks inline_scratch; input = input; pool = pool })
  unfolding init_shared
  init_shared-IsReady inline_scratch input pool = record {
    fits = omega arith;
    fresh = λ shared lease less. refl;
  }

  -- What a call leaves of the state, by its result.
  abbrev pub Kept : (required : ℕ) → State blocks → Result (Unit {0}) × State blocks → Type 0
  Kept required s (ok u, t) =
      (required ≤ length t.scratch)
      × (held blocks t ≡ held blocks s)
      × (t.buffered ≡ s.buffered)
      × (t.input ≡ s.input)
      × IsReady t
  Kept required s (err x, t) = (t.framer ≡ s.framer) × (t.input ≡ s.input)

  copied :
      (s : State blocks) (bytes : List ℕ)
      → s.buffered ≤ length s.scratch
      → take s.buffered (memcpy 0 (held blocks s) bytes) ≡ held blocks s
  copied s bytes f =
      take-append_exact s.buffered (held blocks s) (drop (0 + length (held blocks s)) bytes)
        (omega (arith, length-take s.buffered s.scratch))

  room :
      (s : State blocks) (bytes : List ℕ) → length bytes ≤ length (memcpy 0 (held blocks s) bytes)
  room s bytes = omega (
    arith,
    length-append (held blocks s) (drop (0 + length (held blocks s)) bytes),
    length-drop (0 + length (held blocks s)) bytes,
  )

  holds :
      (s : State blocks) (bytes : List ℕ)
      → s.buffered ≤ length s.scratch
      → s.buffered ≤ length (memcpy 0 (held blocks s) bytes)
  holds s bytes f = omega (
    arith,
    f,
    length-append (held blocks s) (drop (0 + length (held blocks s)) bytes),
    length-take s.buffered s.scratch,
  )

  lease_block-Kept :
      (required : ℕ) (s : State blocks)
      → IsReady s
      → Kept required s (lease_block blocks required s)
  unfolding lease_block
  lease_block-Kept required s i = acquired (blocks.acquire s.pool) refl
    where
      released :
          (l : blocks.Lease) (p : blocks.Pool) (r : Result blocks.Pool)
          → blocks.acquire s.pool ≡ ok (l, p)
          → ltb (length (blocks.bytes l)) required ≡ true
          → blocks.release p l ≡ r
          → Kept required s (lease_block blocks required s)
      released l p (ok q) e small f = rw (e, lease_block, small, f) (refl, refl)
      released l p (err x) e small f = rw (e, lease_block, small, f) (refl, refl)

      acquired :
          (r : Result (blocks.Lease × blocks.Pool))
          → blocks.acquire s.pool ≡ r
          → Kept required s (lease_block blocks required s)
      acquired (err x) e = rw (e, lease_block) (refl, refl)
      acquired (ok (l, p)) e = elim (Bool-cases (ltb (length (blocks.bytes l)) required)) [
        | inl small ↦ released l p (blocks.release p l) e small refl
        | inr large ↦
            rw (e, lease_block, large)
              (
                ground (arith, room s (blocks.bytes l)),
                copied s (blocks.bytes l) i.fits,
                refl,
                refl,
                record { fits = holds s (blocks.bytes l) i.fits; fresh = λ sh n lt. absurd (cc) },
              )
      ]

  none_held : (n m : ℕ) (xs ys : List ℕ) → n ≡ 0 → take n xs ≡ take n ys
  none_held n m xs ys e = ap (λ k. take k xs) e ∙ sym (ap (λ k. take k ys) e)

  is_free : (lease : Option blocks.Lease) → is_none blocks lease ≡ true → lease ≡ none
  unfolding is_none
  is_free none e = refl
  is_free (some l) e = absurd (cc)

  switches_to_lease :
      (required : ℕ) (s : State blocks)
      → leb required (length s.scratch) ≡ false
      → s.shared ≡ true
      → leb required (length s.inline_scratch) && is_none blocks s.lease ≡ false
      → is_none blocks s.lease ≡ true
      → lease_block blocks required s ≡ ensure_capacity blocks required s
  unfolding ensure_capacity
  switches_to_lease required s more shared large unleased = ground arith

  -- Whatever the pool answers, ensureCapacity on a ready framer either fails and leaves the framer and the
  -- input alone; or it succeeds, and then the scratch space has the room that is asked for, it still holds
  -- the same fragment, byte by byte, also where that was copied to a leased block, the input is the same,
  -- and the framer is ready.
  pub ensure_capacity-Kept :
      (required : ℕ) (s : State blocks)
      → IsReady s
      → Kept required s (ensure_capacity blocks required s)
  unfolding ensure_capacity
  ensure_capacity-Kept required s i = elim (Bool-cases (leb required (length s.scratch))) [
    | inl enough ↦ rw enough (leb→le _ _ enough, refl, refl, refl, i)
    | inr more ↦ elim (Bool-cases s.shared) [
      | inr fixed ↦ rw (more, fixed) (refl, refl)
      | inl shared ↦
          elim (Bool-cases (leb required (length s.inline_scratch) && is_none blocks s.lease)) [
            | inl small ↦
                let free = is_free s.lease (ground arith) in
                let empty = i.fresh shared free (ground arith) in
                rw (more, shared, small)
                  (
                    ground arith,
                    none_held s.buffered 0 s.inline_scratch s.scratch empty,
                    refl,
                    refl,
                    record { fits = omega (arith, empty); fresh = λ a b c. empty },
                  )
            | inr large ↦ elim (Bool-cases (is_none blocks s.lease)) [
              | inr leased ↦ rw (more, shared, large, leased) (refl, refl)
              | inl unleased ↦
                  subst (Kept required s) (switches_to_lease required s more shared large unleased)
                    (lease_block-Kept required s i)
            ]
          ]
    ]
  ]
