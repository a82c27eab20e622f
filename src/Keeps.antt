-- ===== src/Keeps.antt =====
-- Properties that code with state keeps, on the error paths too: one rule for each effect.
use rapsqlite.Prelude.{Bool, true, false, Option, none, some, if◌then◌else◌}
use rapsqlite.Outcome.{Outcome, ok, err, PyErr}
use rapsqlite.State.{M, ◌>>=◌, and_then, pure, throw, gets, modify, lift, require}

pub record Keeps {S A : Type 0} (P : S → Type 0) (m : M S A) : Type 0 where
  pub at : (s : S) → P s → P (m s).1

module _ {S : Type 0} {P : S → Type 0} where
  pub and_then-holds :
      {A B : Type 0} (r : Outcome A × S) (f : A → M S B)
      → P r.1
      → ((a : A) → Keeps P (f a))
      → P (and_then r f).1
  unfolding and_then
  and_then-holds (ok a, s) f h k = (k a).at s h
  and_then-holds (err e, s) f h k = h

  -- A bind whose second part turns one property into another.
  pub and_then-leads :
      {Q : S → Type 0} {A B : Type 0} (r : Outcome A × S) (f : A → M S B)
      → P r.1
      → ((s : S) → P s → Q s)
      → ((a : A) (s : S) → P s → Q (f a s).1)
      → Q (and_then r f).1
  unfolding and_then
  and_then-leads (ok a, s) f p weaken step = step a s p
  and_then-leads (err e, s) f p weaken step = weaken s p

  pub Keeps-bind :
      {A B : Type 0} (m : M S A) (f : A → M S B)
      → Keeps P m
      → ((a : A) → Keeps P (f a))
      → Keeps P (m >>= f)
  unfolding ◌>>=◌
  Keeps-bind m f hm hf = record { at = λ s p. and_then-holds (m s) f (hm.at s p) hf }

  pub Keeps-pure : {A : Type 0} (a : A) → Keeps P (pure a)
  unfolding pure
  Keeps-pure a = record { at = λ s p. p }

  pub Keeps-throw : {A : Type 0} (e : PyErr) → Keeps P (throw {A = A} e)
  unfolding throw
  Keeps-throw e = record { at = λ s p. p }

  pub Keeps-gets : {A : Type 0} (f : S → A) → Keeps P (gets f)
  unfolding gets
  Keeps-gets f = record { at = λ s p. p }

  pub Keeps-lift : {A : Type 0} (r : Outcome A) → Keeps P (lift r)
  unfolding lift
  Keeps-lift r = record { at = λ s p. p }

  pub Keeps-require : {A : Type 0} (o : Option A) (e : PyErr) → Keeps P (require o e)
  unfolding require
  Keeps-require none e = record { at = λ s p. p }
  Keeps-require (some a) e = record { at = λ s p. p }

  pub Keeps-modify : (f : S → S) → ((s : S) → P s → P (f s)) → Keeps P (modify f)
  unfolding modify
  Keeps-modify f h = record { at = h }

  pub Keeps-if :
      {A : Type 0} (b : Bool) (m n : M S A) → Keeps P m → Keeps P n → Keeps P (if b then m else n)
  Keeps-if true m n hm hn = hm
  Keeps-if false m n hm hn = hn

pub ruleset keeps_rules =
    (Keeps-bind, Keeps-pure, Keeps-throw, Keeps-gets, Keeps-lift, Keeps-require)

-- What holds of the state that a success ends in, whatever came before the last step.
abbrev pub OkHolds : {S A : Type 0} → (S → Type 0) → Outcome A × S → Type 0
OkHolds Q (ok a, s) = Q s
OkHolds Q (err e, s) = Unit

pub record Leads {S A : Type 0} (Q : S → Type 0) (m : M S A) : Type 0 where
  pub at : (s : S) → OkHolds Q (m s)

module _ {S : Type 0} {Q : S → Type 0} where
  and_then-OkHolds :
      {A B : Type 0} (r : Outcome A × S) (f : A → M S B)
      → ((a : A) → Leads Q (f a))
      → OkHolds Q (and_then r f)
  unfolding and_then
  and_then-OkHolds (ok a, s) f h = (h a).at s
  and_then-OkHolds (err e, s) f h = tt

  pub Leads-bind :
      {A B : Type 0} (m : M S A) (f : A → M S B) → ((a : A) → Leads Q (f a)) → Leads Q (m >>= f)
  unfolding ◌>>=◌
  Leads-bind m f h = record { at = λ s. and_then-OkHolds (m s) f h }

  pub Leads-modify : (f : S → S) → ((s : S) → Q (f s)) → Leads Q (modify f)
  unfolding modify
  Leads-modify f h = record { at = h }

-- From one property of the state before to another after a success.
pub record Yields {S A : Type 0} (P Q : S → Type 0) (m : M S A) : Type 0 where
  pub at : (s : S) → P s → OkHolds Q (m s)

OkHolds-weaken : {S A : Type 0} (P : S → Type 0) (r : Outcome A × S) → P r.1 → OkHolds P r
OkHolds-weaken P (ok a, s) p = p
OkHolds-weaken P (err e, s) p = tt

and_then-Yields :
    {S A B : Type 0} (Q R : S → Type 0) (r : Outcome A × S) (f : A → M S B)
    → OkHolds Q r
    → ((a : A) → Yields Q R (f a))
    → OkHolds R (and_then r f)
unfolding and_then
and_then-Yields Q R (ok a, s) f q h = (h a).at s q
and_then-Yields Q R (err e, s) f q h = tt

pub Yields-bind :
    {S A B : Type 0} {P Q R : S → Type 0} (m : M S A) (f : A → M S B)
    → Yields P Q m
    → ((a : A) → Yields Q R (f a))
    → Yields P R (m >>= f)
unfolding ◌>>=◌
Yields-bind {Q} {R} m f h k = record { at = λ s p. and_then-Yields Q R (m s) f (h.at s p) k }

pub Keeps-Yields : {S A : Type 0} {P : S → Type 0} (m : M S A) → Keeps P m → Yields P P m
Keeps-Yields {P} m k = record { at = λ s p. OkHolds-weaken P (m s) (k.at s p) }
