-- ===== src/Session/Ends.antt =====
-- How a call ends: a postcondition on its result and on the state it leaves, with a rule for each
-- way in which a `do` block goes on.
use realynk.Base.{◌≡◌, refl, Bool, true, false, Option, none, some}
use realynk.Models.{Db}
use realynk.Session.{
  Exn, Result, ok, err, Action, Engine, accepted, rejected, raise, pure, gets, fetch, lift, catch,
  raise_if, modify, commit_or, or_raise, settle, settled, try_commit, continue, ◌>>=◌, ◌>>◌,
}

pub record Ends {A : Type 0} (Q : Result A → Db → Type 0) (m : Action A) (d : Db) : Type 0 where
  pub at : Q (m d).0 (m d).1

module _ {B : Type 0} {Q : Result B → Db → Type 0} where
  pub Ends-pure : (b : B) (d : Db) → Q (ok b) d → Ends Q (pure b) d
  unfolding ◌>>=◌
  Ends-pure b d h = record { at = h }

  pub Ends-raise : (e : Exn) (d : Db) → Q (err e) d → Ends Q (raise e) d
  unfolding ◌>>=◌
  Ends-raise e d h = record { at = h }

  pub Ends-raise_if :
      (c : Bool) (e : Exn) (k : Action B) (d : Db)
      → (c ≡ true → Q (err e) d)
      → (c ≡ false → Ends Q k d)
      → Ends Q (raise_if c e >> k) d
  unfolding ◌>>=◌
  Ends-raise_if true e k d stop go = record { at = stop refl }
  Ends-raise_if false e k d stop go = record { at = (go refl).at }

  pub Ends-modify :
      (g : Db → Db) (k : Action B) (d : Db) → Ends Q k (g d) → Ends Q (modify g >> k) d
  unfolding ◌>>=◌
  Ends-modify g k d h = record { at = h.at }

  pub Ends-commit_or :
      (engine : Engine) (e : Exn) (k : Action B) (d : Db)
      → (engine d ≡ accepted → Ends Q k d)
      → ((d' : Db) → engine d ≡ rejected d' → Q (err e) d')
      → Ends Q (commit_or engine e >> k) d
  unfolding ◌>>=◌
  Ends-commit_or engine e k d go stop = record {
    at =
        (elim (engine d)
            as (λ v.
              engine d ≡ v
              → Q (continue (settle e d v).0 (λ _. k) (settle e d v).1).0
                  (continue (settle e d v).0 (λ _. k) (settle e d v).1).1) [
                    | accepted ↦ λ p. (go p).at
                    | rejected d' ↦ λ p. stop d' p
                  ])
          refl;
  }

  pub Ends-try_commit :
      (engine : Engine) (f : Bool → Action B) (d : Db)
      → (engine d ≡ accepted → Ends Q (f true) d)
      → ((d' : Db) → engine d ≡ rejected d' → Ends Q (f false) d')
      → Ends Q (try_commit engine >>= f) d
  unfolding ◌>>=◌
  Ends-try_commit engine f d go stop = record {
    at =
        (elim (engine d)
            as (λ v.
              engine d ≡ v
              → Q (continue (settled d v).0 f (settled d v).1).0
                  (continue (settled d v).0 f (settled d v).1).1) [
                    | accepted ↦ λ p. (go p).at
                    | rejected d' ↦ λ p. (stop d' p).at
                  ])
          refl;
  }

pub Ends-commit :
    {Q : Result (Unit {0}) → Db → Type 0} (engine : Engine) (e : Exn) (d : Db)
    → (engine d ≡ accepted → Q (ok tt) d)
    → ((d' : Db) → engine d ≡ rejected d' → Q (err e) d')
    → Ends Q (commit_or engine e) d
unfolding ◌>>=◌
Ends-commit {Q} engine e d go stop = record {
  at =
      (elim (engine d) as (λ v. engine d ≡ v → Q (settle e d v).0 (settle e d v).1) [
        | accepted ↦ λ p. go p
        | rejected d' ↦ λ p. stop d' p
      ])
        refl;
}

module _ {A B : Type 0} {Q : Result B → Db → Type 0} where
  pub Ends-pure_bind :
      (a : A) (f : A → Action B) (d : Db) → Ends Q (f a) d → Ends Q (pure a >>= f) d
  unfolding ◌>>=◌
  Ends-pure_bind a f d h = record { at = h.at }

  pub Ends-gets :
      (q : Db → A) (f : A → Action B) (d : Db) → Ends Q (f (q d)) d → Ends Q (gets q >>= f) d
  unfolding ◌>>=◌
  Ends-gets q f d h = record { at = h.at }

  pub Ends-fetch :
      (q : Db → Option A) (e : Exn) (f : A → Action B) (d : Db)
      → (q d ≡ none → Q (err e) d)
      → ((a : A) → q d ≡ some a → Ends Q (f a) d)
      → Ends Q (fetch q e >>= f) d
  unfolding ◌>>=◌
  Ends-fetch q e f d stop go = record {
    at =
        (elim (q d)
            as (λ o.
              q d ≡ o
              → Q (continue (or_raise o e d).0 f (or_raise o e d).1).0
                  (continue (or_raise o e d).0 f (or_raise o e d).1).1) [
                    | none ↦ λ p. stop p
                    | some a ↦ λ p. (go a p).at
                  ])
          refl;
  }

  -- the translation of an exception that a query raises
  pub Ends-catch_fetch :
      (q : Db → Option A) (e : Exn) (handler : Exn → Exn) (f : A → Action B) (d : Db)
      → (q d ≡ none → Q (err (handler e)) d)
      → ((a : A) → q d ≡ some a → Ends Q (f a) d)
      → Ends Q (catch (fetch q e) handler >>= f) d
  unfolding ◌>>=◌
  Ends-catch_fetch q e handler f d stop go = record {
    at =
        (elim (q d)
            as (λ o.
              q d ≡ o
              → Q
                  (continue (catch (λ d. or_raise o e d) handler d).0 f
                    (catch (λ d. or_raise o e d) handler d).1).0
                  (continue (catch (λ d. or_raise o e d) handler d).0 f
                    (catch (λ d. or_raise o e d) handler d).1).1) [
                      | none ↦ λ p. stop p
                      | some a ↦ λ p. (go a p).at
                    ])
          refl;
  }

  pub Ends-lift :
      (r : Result A) (f : A → Action B) (d : Db)
      → ((e : Exn) → r ≡ err e → Q (err e) d)
      → ((a : A) → r ≡ ok a → Ends Q (f a) d)
      → Ends Q (lift r >>= f) d
  unfolding ◌>>=◌
  Ends-lift (ok a) f d stop go = record { at = (go a refl).at }
  Ends-lift (err e) f d stop go = record { at = stop e refl }

module _ {A B C : Type 0} {Q : Result C → Db → Type 0} where
  -- regrouping, for a block inside a block
  pub Ends-assoc :
      (m : Action A) (f : A → Action B) (g : B → Action C) (d : Db)
      → Ends Q (m >>= λ a. f a >>= g) d
      → Ends Q ((m >>= f) >>= g) d
  unfolding ◌>>=◌
  Ends-assoc m f g d h = record { at = go (m d).0 (m d).1 h.at }
    where
      go :
          (r : Result A) (d' : Db)
          → Q (continue r (λ a. f a >>= g) d').0 (continue r (λ a. f a >>= g) d').1
          → Q
              (continue (continue r f d').0 g (continue r f d').1).0
              (continue (continue r f d').0 g (continue r f d').1).1
      go (ok a) d' h = h
      go (err e) d' h = h
