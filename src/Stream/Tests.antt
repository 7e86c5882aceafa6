-- ===== src/Stream/Tests.antt =====
-- src/stream.zig: the theorems at a fragment that a pool of pages takes over.
use wayring.Base.{replicate, ok, ℕ, ◌+◌, true, false, none, [], ◌∷◌, arith}
use wayring.Stream.{BlockPool, State, ensure_capacity}
use wayring.Stream.Capacity.{IsReady, Kept, ensure_capacity-Kept}

abbrev pages : BlockPool
pages = record {
  Pool = ℕ;
  Lease = ℕ;
  bytes = λ l. replicate 32 l;
  acquire = λ p. ok (p, p + 1);
  release = λ p l. ok p;
}

-- Three bytes of a message are held in the eight inline bytes.
abbrev fragment : State pages
fragment = record {
  framer = record {
    scratch = 1 ∷ 2 ∷ 3 ∷ 0 ∷ 0 ∷ 0 ∷ 0 ∷ 0 ∷ [];
    buffered = 3;
    inline_scratch = 0 ∷ 0 ∷ 0 ∷ 0 ∷ 0 ∷ 0 ∷ 0 ∷ 0 ∷ [];
    shared = true;
    lease = none;
    release_before_next = false;
  };
  input = 4 ∷ 5 ∷ [];
  pool = 9;
}

fragment-IsReady : IsReady pages fragment
fragment-IsReady = record { fits = omega arith; fresh = λ sh n lt. absurd (omega (arith, lt)) }

ensure_capacity-Kept_example : Kept pages 20 fragment (ensure_capacity pages 20 fragment)
ensure_capacity-Kept_example = ensure_capacity-Kept pages 20 fragment fragment-IsReady
