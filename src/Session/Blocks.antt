-- ===== src/Session/Blocks.antt =====
-- How a block inside a block ends.
use realynk.Base.{◌≡◌, refl, Bool, true, false, if◌then◌else◌}
use realynk.Models.{Db}
use realynk.Session.{Exn, Result, ok, err, Action, continue, catch, attempt, lift, ◌>>=◌}
use realynk.Session.Ends.{Ends}

-- the postcondition of a call that `f` follows
abbrev pub Then :
    {A B : Type 0} → (Result B → Db → Type 0) → (A → Action B) → Result A → Db → Type 0
Then Q f (ok a) d = Ends Q (f a) d
Then Q f (err e) d = Q (err e) d

pub Ends-bind :
    {A B : Type 0} {Q : Result B → Db → Type 0} (m : Action A) (f : A → Action B) (d : Db)
    → Ends (Then Q f) m d
    → Ends Q (m >>= f) d
unfolding ◌>>=◌
Ends-bind {A} {B} {Q} m f d h = record { at = go (m d).0 (m d).1 h.at }
  where
    go : (r : Result A) (d' : Db) → Then Q f r d' → Q (continue r f d').0 (continue r f d').1
    go (ok a) d' k = k.at
    go (err e) d' k = k

-- the postcondition of a call whose exceptions are translated
abbrev pub Handled : {A : Type 0} → (Result A → Db → Type 0) → (Exn → Exn) → Result A → Db → Type 0
Handled Q handler (ok a) d = Q (ok a) d
Handled Q handler (err e) d = Q (err (handler e)) d

pub Ends-catch :
    {A : Type 0} {Q : Result A → Db → Type 0} (m : Action A) (handler : Exn → Exn) (d : Db)
    → Ends (Handled Q handler) m d
    → Ends Q (catch m handler) d
unfolding ◌>>=◌
Ends-catch {A} {Q} m handler d h = record { at = go (m d).0 (m d).1 h.at }
  where
    go :
        (r : Result A) (d' : Db)
        → Handled Q handler r d'
        → Q (catch (λ _. (r, d')) handler d).0 (catch (λ _. (r, d')) handler d).1
    go (ok a) d' k = k
    go (err e) d' k = k

-- the postcondition of a call whose failure is logged
abbrev pub Tried : {A : Type 0} → (Result A → Db → Type 0) → A → Result A → Db → Type 0
Tried Q a (ok x) d = Q (ok x) d
Tried Q a (err e) d = Q (ok a) d

pub Ends-attempt :
    {A : Type 0} {Q : Result A → Db → Type 0} (a : A) (m : Action A) (d : Db)
    → Ends (Tried Q a) m d
    → Ends Q (attempt a m) d
unfolding ◌>>=◌
Ends-attempt {A} {Q} a m d h = record { at = go (m d).0 (m d).1 h.at }
  where
    go :
        (r : Result A) (d' : Db)
        → Tried Q a r d'
        → Q (attempt a (λ _. (r, d')) d).0 (attempt a (λ _. (r, d')) d).1
    go (ok x) d' k = k
    go (err e) d' k = k

-- a weaker postcondition
pub Ends-weaken :
    {A : Type 0} {Q R : Result A → Db → Type 0} (m : Action A) (d : Db)
    → ((r : Result A) (d' : Db) → Q r d' → R r d')
    → Ends Q m d
    → Ends R m d
Ends-weaken m d f h = record { at = f (m d).0 (m d).1 h.at }

-- a test between two blocks
pub Ends-if :
    {A : Type 0} {Q : Result A → Db → Type 0} (b : Bool) (m k : Action A) (d : Db)
    → (b ≡ true → Ends Q m d)
    → (b ≡ false → Ends Q k d)
    → Ends Q (if b then m else k) d
Ends-if true m k d on off = on refl
Ends-if false m k d on off = off refl

-- a test of a rule, or a pure computation that may raise, at the end of a block
pub Ends-lifted :
    {A : Type 0} {Q : Result A → Db → Type 0} (r : Result A) (d : Db)
    → ((e : Exn) → r ≡ err e → Q (err e) d)
    → ((a : A) → r ≡ ok a → Q (ok a) d)
    → Ends Q (lift r) d
unfolding ◌>>=◌
Ends-lifted (ok a) d stop go = record { at = go a refl }
Ends-lifted (err e) d stop go = record { at = stop e refl }
