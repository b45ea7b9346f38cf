-- ===== src/Base/Actions.antt =====
-- Calls that change a state and may throw. What was changed before a throw stays changed, so the
-- state comes back with every result.
use mathlib.Core.Path.{◌≡◌, refl}
use mathlib.Core.Bool.{Bool, true, false}
use fncs.Base.Tests.{if◌then◌else◌}
use fncs.Base.Errors.{Exception, Result, ok, throws, assert_fails, undefined}

abbrev pub Action : Type 0 → Type 0 → Type 0
Action S A = S → S × Result A

module _ {S A : Type 0} where
  abbrev pub pure : A → Action S A
  pure a s = (s, ok a)

  abbrev pub raise : Exception → Action S A
  raise e s = (s, throws e)

  abbrev pub gets : (S → A) → Action S A
  gets f s = (s, ok (f s))

  abbrev pub lift : Result A → Action S A
  lift r s = (s, r)

module _ {S : Type 0} where
  abbrev pub modify : (S → S) → Action S (Unit {0})
  modify f s = (f s, ok tt)

  abbrev pub raise_if : Bool → Exception → Action S (Unit {0})
  raise_if c e s = (s, if c then throws e else ok tt)

module _ {S A B : Type 0} where
  abbrev pub resume : S × Result A → (A → Action S B) → S × Result B
  resume (s, ok a) f = f a s
  resume (s, throws e) f = (s, throws e)
  resume (s, assert_fails) f = (s, assert_fails)
  resume (s, undefined) f = (s, undefined)

  infixl 5 ◌>>=◌ ◌>>◌
  abbrev pub ◌>>=◌ : Action S A → (A → Action S B) → Action S B
  ◌>>=◌ m f s = resume (m s) f

  abbrev pub ◌>>◌ : Action S A → Action S B → Action S B
  m >> k = m >>= λ _. k

-- `catch`: what is done after an exception that the test recognises.
abbrev pub rescue :
    {S : Type 0} → (Exception → Bool) → S × Result (Unit {0}) → S × Result (Unit {0})
rescue p (s, ok a) = (s, ok a)
rescue p (s, throws e) = (s, if p e then ok tt else throws e)
rescue p (s, assert_fails) = (s, assert_fails)
rescue p (s, undefined) = (s, undefined)

module _ {S A : Type 0} where
  -- The call comes back with a value, and that value and the state satisfy the postcondition.
  abbrev pub Returns : (S → A → Type 0) → S × Result A → Type 0
  Returns P (s, ok a) = P s a
  Returns P (s, throws e) = ⊥
  Returns P (s, assert_fails) = ⊥
  Returns P (s, undefined) = ⊥

  pub Returns-imp :
      (P Q : S → A → Type 0) (r : S × Result A)
      → Returns P r
      → ((s : S) (a : A) → P s a → Q s a)
      → Returns Q r
  Returns-imp P Q (s, ok a) p h = h s a p
  Returns-imp P Q (s, throws e) p h = elim p [ ]
  Returns-imp P Q (s, assert_fails) p h = elim p [ ]
  Returns-imp P Q (s, undefined) p h = elim p [ ]

pub Returns-rescue :
    {S : Type 0} (P : S → Unit {0} → Type 0) (p : Exception → Bool) (r : S × Result (Unit {0}))
    → Returns P r
    → Returns P (rescue p r)
Returns-rescue P p (s, ok a) h = h
Returns-rescue P p (s, throws e) h = elim h [ ]
Returns-rescue P p (s, assert_fails) h = elim h [ ]
Returns-rescue P p (s, undefined) h = elim h [ ]

pub Returns->>= :
    {S A B : Type 0} (Q : S → A → Type 0) (P : S → B → Type 0) (m : S × Result A)
    (f : A → Action S B)
    → Returns Q m
    → ((s : S) (a : A) → Q s a → Returns P (f a s))
    → Returns P (resume m f)
Returns->>= Q P (s, ok a) f q h = h s a q
Returns->>= Q P (s, throws e) f q h = elim q [ ]
Returns->>= Q P (s, assert_fails) f q h = elim q [ ]
Returns->>= Q P (s, undefined) f q h = elim q [ ]

module _ {S A : Type 0} where
  -- If the call comes back with a value, that value and the state satisfy the postcondition.
  abbrev pub Leaves : (S → A → Type 0) → S × Result A → Type 0
  Leaves P (s, ok a) = P s a
  Leaves P (s, throws e) = Unit {0}
  Leaves P (s, assert_fails) = Unit {0}
  Leaves P (s, undefined) = Unit {0}

  -- A state that is the same however the call ends
  pub Leaves-same : (P : S → Type 0) (s : S) (r : Result A) → P s → Leaves (λ s' _. P s') (s, r)
  Leaves-same P s (ok a) h = h
  Leaves-same P s (throws e) h = tt
  Leaves-same P s assert_fails h = tt
  Leaves-same P s undefined h = tt

pub Leaves->>= :
    {S A B : Type 0} (Q : S → A → Type 0) (P : S → B → Type 0) (m : S × Result A)
    (f : A → Action S B)
    → Leaves Q m
    → ((s : S) (a : A) → Q s a → Leaves P (f a s))
    → Leaves P (resume m f)
Leaves->>= Q P (s, ok a) f q h = h s a q
Leaves->>= Q P (s, throws e) f q h = tt
Leaves->>= Q P (s, assert_fails) f q h = tt
Leaves->>= Q P (s, undefined) f q h = tt

-- What follows ensures the postcondition from every state.
pub Leaves-after :
    {S A B : Type 0} (P : S → B → Type 0) (m : S × Result A) (f : A → Action S B)
    → ((s : S) (a : A) → Leaves P (f a s))
    → Leaves P (resume m f)
Leaves-after P (s, ok a) f h = h s a
Leaves-after P (s, throws e) f h = tt
Leaves-after P (s, assert_fails) f h = tt
Leaves-after P (s, undefined) f h = tt

module _ {S A : Type 0} where
  pub Leaves-if :
      (P : S → A → Type 0) (c : Bool) (x y : S × Result A)
      → (c ≡ true → Leaves P x)
      → (c ≡ false → Leaves P y)
      → Leaves P (if c then x else y)
  Leaves-if P true x y h k = h refl
  Leaves-if P false x y h k = k refl

  pub Leaves-choose :
      (P : S → A → Type 0) (c : Bool) (f g : Action S A) (s : S)
      → (c ≡ true → Leaves P (f s))
      → (c ≡ false → Leaves P (g s))
      → Leaves P ((if c then f else g) s)
  Leaves-choose P true f g s h k = h refl
  Leaves-choose P false f g s h k = k refl

module _ {S A : Type 0} where
  pub Returns-if :
      (P : S → A → Type 0) (c : Bool) (x y : S × Result A)
      → (c ≡ true → Returns P x)
      → (c ≡ false → Returns P y)
      → Returns P (if c then x else y)
  Returns-if P true x y h k = h refl
  Returns-if P false x y h k = k refl

  pub Returns-choose :
      (P : S → A → Type 0) (c : Bool) (f g : Action S A) (s : S)
      → (c ≡ true → Returns P (f s))
      → (c ≡ false → Returns P (g s))
      → Returns P ((if c then f else g) s)
  Returns-choose P true f g s h k = h refl
  Returns-choose P false f g s h k = k refl
