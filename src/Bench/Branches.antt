-- ===== src/Bench/Branches.antt =====
-- Tests at which a run may stop.
use wayring.Base.{if◌then◌else◌, ◌≡◌, refl, Bool, true, false, Option, some}

pub if_false : {A : Type 0} (b : Bool) (stop go : A) → b ≡ false → (if b then stop else go) ≡ go
if_false true stop go e = absurd (cc)
if_false false stop go e = refl

pub if_true : {A : Type 0} (b : Bool) (go stop : A) → b ≡ true → (if b then go else stop) ≡ go
if_true true go stop e = refl
if_true false go stop e = absurd (cc)

-- A test that stops with a failure did not hold in a run that succeeds.
pub past_stop :
    {P : Type 0} (status : P → Option Bool) (b : Bool) (stop go : P)
    → status stop ≡ some false
    → status (if b then stop else go) ≡ some true
    → (b ≡ false) × ((if b then stop else go) ≡ go)
past_stop status true stop go e s = absurd (cc)
past_stop status false stop go e s = (refl, refl)
