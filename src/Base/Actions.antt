-- ===== src/Base/Actions.antt =====
-- Methods as actions on a state, which may raise. What was written before a raise stays written,
-- except in a transaction, which is rolled back.

use mathlib.Core.Path.{◌≡◌, refl, ap}
use mathlib.Core.Logic.{◌⊎◌, inl, inr}
use mathlib.Core.Bool.{Bool, true, false}
use mathlib.Core.Option.{Option, none, some}
use qayoda_backend.Base.Tests.{if◌then◌else◌}

pub data Result (E A : Type 0) : Type 0 where
  ok : A → Result E A
  err : E → Result E A

abbrev pub Action : Type 0 → Type 0 → Type 0 → Type 0
Action S E A = S → Result E A × S

module _ {S E A : Type 0} where
  -- Go on with what an action gave, or pass its failure on.
  abbrev pub after : {B : Type 0} → Result E A × S → (A → Action S E B) → Result E B × S
  after (ok a, s) f = f a s
  after (err e, s) f = (err e, s)

  abbrev pub pure : A → Action S E A
  pure a s = (ok a, s)

  abbrev pub raise : E → Action S E A
  raise e s = (err e, s)

  abbrev pub gets : (S → A) → Action S E A
  gets f s = (ok (f s), s)

  abbrev pub or_raise : Option A → E → Action S E A
  or_raise none e = raise e
  or_raise (some a) e = pure a

  -- Undo what an action wrote if it raised.
  abbrev pub commit : S → Result E A × S → Result E A × S
  commit before (ok a, s) = (ok a, s)
  commit before (err e, s) = (err e, before)

  -- `dataSource.transaction`
  abbrev pub transaction : Action S E A → Action S E A
  transaction m s = commit s (m s)

  -- To split on what an action did and keep the equation.
  pub Result-cases :
      (r : Result E A × S)
      → ((a : A) × (s : S) × (r ≡ (ok a, s))) ⊎ ((e : E) × (s : S) × (r ≡ (err e, s)))
  Result-cases (ok a, s) = inl (a, s, refl)
  Result-cases (err e, s) = inr (e, s, refl)

infixl 5 ◌>>=◌ ◌>>◌
abbrev pub ◌>>=◌ : {S E A B : Type 0} → Action S E A → (A → Action S E B) → Action S E B
◌>>=◌ m f s = after (m s) f

abbrev pub ◌>>◌ : {S E A B : Type 0} → Action S E A → Action S E B → Action S E B
m >> k = m >>= λ _. k

module _ {S E : Type 0} where
  abbrev pub raise_if : Bool → E → Action S E (Unit {0})
  raise_if b e s = (if b then err e else ok tt, s)

  abbrev pub modify : (S → S) → Action S E (Unit {0})
  modify f s = (ok tt, f s)

-- What an action keeps of the state, and what holds of the result that it gives.
module _ {S E : Type 0} (P : S → Type 0) where
  pub record Holds {A : Type 0} (Q : A → Type 0) (m : Action S E A) : Type 0 where
    pub state : (s : S) → P s → P (m s).1
    pub result : (s : S) → P s → (a : A) → (m s).0 ≡ ok a → Q a

  pub bind-Holds :
      {A B : Type 0} (Q : A → Type 0) (R : B → Type 0) (m : Action S E A) (f : A → Action S E B)
      → Holds Q m
      → ((a : A) → Q a → Holds R (f a))
      → Holds R (m >>= f)
  bind-Holds Q R m f h k = record {
    state = λ s p. elim (Result-cases (m s)) [
      | inl (a, t, e) ↦
          let q : Q a = h.result s p a (ap (λ r. r.0) e) in
          let there : P t = rw e at (h.state s p) in rw e ((k a q).state t there)
      | inr (x, t, e) ↦ let there : P t = rw e at (h.state s p) in rw e there
    ];
    result = λ s p b done. elim (Result-cases (m s)) [
      | inl (a, t, e) ↦
          let q : Q a = h.result s p a (ap (λ r. r.0) e) in
          let there : P t = rw e at (h.state s p) in (k a q).result t there b (rw e at done)
      | inr (x, t, e) ↦ absurd (cc (rw e at done))
    ];
  }

  module _ {A : Type 0} (Q : A → Type 0) where
    pub pure-Holds : (a : A) → Q a → Holds Q (pure a)
    pure-Holds a q = record {
      state = λ s p. p;
      result = λ s p b e. let same : a ≡ b = cc e in rw (← same) q;
    }

    pub raise-Holds : (e : E) → Holds Q (raise e)
    raise-Holds e = record { state = λ s p. p; result = λ s p a h. absurd (cc h) }

    pub gets-Holds : (f : S → A) → ((s : S) → P s → Q (f s)) → Holds Q (gets f)
    gets-Holds f q = record {
      state = λ s p. p;
      result = λ s p b e. let same : f s ≡ b = cc e in rw (← same) (q s p);
    }

    pub or_raise-Holds :
        (o : Option A) (e : E) → ((a : A) → o ≡ some a → Q a) → Holds Q (or_raise o e)
    or_raise-Holds none e q = raise-Holds e
    or_raise-Holds (some a) e q = pure-Holds a (q a refl)

    pub transaction-Holds : (m : Action S E A) → Holds Q m → Holds Q (transaction m)
    transaction-Holds m h = record {
      state = λ s p. elim (Result-cases (m s)) [
        | inl (a, t, e) ↦ let there : P t = rw e at (h.state s p) in rw e there
        | inr (x, t, e) ↦ rw e p
      ];
      result = λ s p b done. elim (Result-cases (m s)) [
        | inl (a, t, e) ↦ h.result s p b (rw e (rw e at done))
        | inr (x, t, e) ↦ absurd (cc (rw e at done))
      ];
    }

  pub raise_if-Holds : (b : Bool) (e : E) → Holds (λ _. b ≡ false) (raise_if b e)
  raise_if-Holds true e = record { state = λ s p. p; result = λ s p a h. absurd (cc h) }
  raise_if-Holds false e = record { state = λ s p. p; result = λ s p a h. refl }

  pub modify-Holds : (f : S → S) → ((s : S) → P s → P (f s)) → Holds (λ _. Unit {0}) (modify f)
  modify-Holds f k = record { state = k; result = λ s p a e. tt }

  -- An action that only reads.
  pub read-Holds :
      {A : Type 0} (m : Action S E A) → ((s : S) → (m s).1 ≡ s) → Holds (λ _. Unit {0}) m
  read-Holds m r = record { state = λ s p. rw (r s) p; result = λ s p a e. tt }
