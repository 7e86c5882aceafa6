-- ===== src/BenchClient/Cleanup.antt =====
-- src/bench/libwayland-client.c: what `benchmark_client_fd` gives back, and when it succeeds.
use wayring.Base.{
  if◌then◌else◌, ne→==, tests, length, get_elem?, take, take_all, get_elem?_of_lt, ℕ, zero, suc,
  ◌+◌, ◌-◌, ◌≤◌, ◌≡◌, refl, sym, ap, ◌∙◌, ◌≢◌, Bool, true, false, not, ◌&&◌, ◌||◌, Option, none,
  some, List, [], ◌∷◌, ◌++◌, arith,
}
use wayring.Bench.{is_null}
use wayring.Bench.Options.{Options}
use wayring.BenchClient.{has_options}
use wayring.BenchClient.Run.{
  Connecting, Connected, bind_objects, all_bound, connect_client, destroy_objects, after_object,
}

-- A list from its end.
unfoldable pub backwards : List (Option ℕ) → List (Option ℕ)
backwards [] = []
backwards (x ∷ xs) = backwards xs ++ (x ∷ [])

backwards_snoc :
    (xs : List (Option ℕ)) (x : Option ℕ) → backwards (xs ++ (x ∷ [])) ≡ x ∷ backwards xs
unfolding backwards
backwards_snoc [] x = refl
backwards_snoc (y ∷ xs) x = ap (λ l. l ++ (y ∷ [])) (backwards_snoc xs x)

value_of : {A : Type 0} → A → Option A → A
value_of x none = x
value_of x (some y) = y

take_next :
    (n : ℕ) (xs : List (Option ℕ)) (x : Option ℕ)
    → get_elem? xs n ≡ some x
    → take (n + 1) xs ≡ take n xs ++ (x ∷ [])
unfolding value_of
take_next n [] x e = absurd (cc)
take_next zero (y ∷ xs) x e = ap (λ o. value_of x o ∷ []) e
take_next (suc n) (y ∷ xs) x is_x =
    let e : suc n + 1 ≡ suc (n + 1) = omega arith in
    ap (λ k. take k (y ∷ xs)) e ∙ ap (λ l. y ∷ l) (take_next n xs x is_x)

bound_snoc :
    (xs : List (Option ℕ)) (x : Option ℕ)
    → all_bound (xs ++ (x ∷ [])) ≡ all_bound xs && not (is_null x)
unfolding all_bound
bound_snoc [] x = ground arith
bound_snoc (y ∷ xs) x = ground (arith, bound_snoc xs x)

bound_take :
    (n : ℕ) (xs : List (Option ℕ)) (x : Option ℕ)
    → get_elem? xs n ≡ some x
    → all_bound (take (suc n) xs) ≡ all_bound (take n xs) && not (is_null x)
bound_take n xs x e =
    let next : suc n ≡ n + 1 = omega arith in
    ap (λ k. all_bound (take k xs)) next
    ∙ ap all_bound (take_next n xs x e)
    ∙ bound_snoc (take n xs) x

call_made :
    (x : Option ℕ) (rest : List (Option ℕ)) (b : Bool)
    → (b && not (is_null x)) ≡ true
    → after_object (some x) rest ≡ x ∷ rest
call_made none rest b h = absurd (ground arith)
call_made (some object) rest b h = refl

all_before : (b c : Bool) → (b && c) ≡ true → b ≡ true
all_before true c h = refl
all_before false c h = h

destroy-take :
    (n : ℕ) (xs : List (Option ℕ))
    → n ≤ length xs
    → all_bound (take n xs) ≡ true
    → destroy_objects n xs ≡ backwards (take n xs)
unfolding destroy_objects backwards
destroy-take zero xs l b = refl
destroy-take (suc n) xs l b =
    let (x, e) = get_elem?_of_lt xs n (omega arith) in
    let next : n + 1 ≡ suc n = omega arith in
    let split : (all_bound (take n xs) && not (is_null x)) ≡ true = sym (bound_take n xs x e) ∙ b in
    ap (λ o. after_object o (destroy_objects n xs)) e
    ∙ call_made x (destroy_objects n xs) (all_bound (take n xs)) split
    ∙ ap (λ l. x ∷ l) (destroy-take n xs (omega arith) (all_before _ _ split))
    ∙ sym (backwards_snoc (take n xs) x)
    ∙ ap backwards (sym (take_next n xs x e))
    ∙ ap (λ k. backwards (take k xs)) next

pub destroy_all :
    (xs : List (Option ℕ)) → all_bound xs ≡ true → destroy_objects (length xs) xs ≡ backwards xs
destroy_all xs b =
    destroy-take (length xs) xs (omega arith) (ap all_bound (take_all (length xs) xs refl) ∙ b)
    ∙ ap backwards (take_all (length xs) xs refl)

length-bind_objects : (bound : ℕ → Option ℕ) (i n : ℕ) → length (bind_objects bound i n) ≡ n
unfolding bind_objects
length-bind_objects bound i zero = refl
length-bind_objects bound i (suc n) = omega (arith, length-bind_objects bound (i + 1) n)

abbrev the_connected : List (Option ℕ) → Bool → Connected
the_connected xs status = record { objects = xs; status = status }

past_failure :
    (b : Bool) (xs : List (Option ℕ)) (bound flushed : Bool)
    → (if b
        then record { objects = []; status = false }
        else the_connected xs (bound && flushed)).status
      ≡ true
    → ((if b
          then record { objects = []; status = false }
          else the_connected xs (bound && flushed)).objects
        ≡ xs)
      × (bound ≡ true)
past_failure true xs bound flushed s = absurd (cc)
past_failure false xs true flushed s = (refl, refl)
past_failure false xs false flushed s = absurd (cc)

some_objects : (o : Options) → has_options o ≡ true → o.objects ≢ 0
unfolding has_options
some_objects o h zero_objects = grind (tests, ne→==)

pub connected :
    (o : Options) (c : Connecting)
    → has_options o ≡ true
    → (connect_client o c).status ≡ true
    → (all_bound (connect_client o c).objects ≡ true)
      × (length (connect_client o c).objects ≡ o.objects)
unfolding connect_client
connected o c h s =
    let objects = c.benchmark ∷ bind_objects c.bound 1 (o.objects - 1) in
    let failed = not c.display || (not c.roundtrip || is_null c.benchmark) in
    let (same, bound) = past_failure failed objects (all_bound objects) c.flushed s in
    (
      ap all_bound same ∙ bound,
      ap length same
          ∙ omega (arith, length-bind_objects c.bound 1 (o.objects - 1), some_objects o h),
    )
