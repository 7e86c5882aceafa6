-- ===== src/BenchServer/Connections.antt =====
-- src/bench/libwayland-server.c: the list of live connections.
use wayring.Base.{◌==◌, Bool-cases, All, ℕ, ◌+◌, ◌≡◌, subst, inl, inr, some, List, [], ◌∷◌, arith}
use wayring.BenchServer.{Connection, find, put, remove}

-- The pings of all live connections.
unfoldable pub total : List Connection → ℕ
total [] = 0
total (k ∷ ks) = k.received + total ks

pub find-client :
    (c : ℕ) (ks : List Connection) (k : Connection) → find c ks ≡ some k → k.client ≡ c
unfolding find
find-client c [] k e = absurd (cc)
find-client c (j ∷ js) k e = ground (arith, find-client c js k)

pub total-put :
    (c : ℕ) (ks : List Connection) (k k' : Connection)
    → find c ks ≡ some k
    → k'.client ≡ c
    → total (put k' ks) + k.received ≡ total ks + k'.received
unfolding find put total
total-put c [] k k' e f = absurd (cc)
total-put c (j ∷ js) k k' e f = ground (arith, total-put c js k k')

pub total-remove :
    (c : ℕ) (ks : List Connection) (k : Connection)
    → find c ks ≡ some k
    → total (remove c ks) + k.received ≡ total ks
unfolding find remove total
total-remove c [] k e = absurd (cc)
total-remove c (j ∷ js) k e = ground (arith, total-remove c js k)

module _ (P : Connection → Type 0) where
  pub All-find :
      (c : ℕ) (ks : List Connection) (k : Connection) → All P ks → find c ks ≡ some k → P k
  unfolding find
  All-find c [] k a e = absurd (cc)
  All-find c (j ∷ js) k a e = elim (Bool-cases (j.client == c)) [
    | inl hit ↦ subst P (ground arith) a.0
    | inr miss ↦ All-find c js k a.1 (ground arith)
  ]

  pub All-put : (k : Connection) (ks : List Connection) → P k → All P ks → All P (put k ks)
  unfolding put
  All-put k [] p a = tt
  All-put k (j ∷ js) p a = elim (Bool-cases (j.client == k.client)) [
    | inl hit ↦ rw hit (p, a.1)
    | inr miss ↦ rw miss (a.0, All-put k js p a.1)
  ]

  pub All-remove : (c : ℕ) (ks : List Connection) → All P ks → All P (remove c ks)
  unfolding remove
  All-remove c [] a = tt
  All-remove c (j ∷ js) a = elim (Bool-cases (j.client == c)) [
    | inl hit ↦ rw hit a.1
    | inr miss ↦ rw miss (a.0, All-remove c js a.1)
  ]
