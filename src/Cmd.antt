-- ===== src/Cmd.antt =====
-- The effect monad of the C++ code: a state that is passed along, the exceptions that zmq.hpp and
-- zmq_addon.hpp throw, undefined behaviour, and fuel for the loops whose length a peer decides.
use zmq_proxy.Prelude.{◌∙◌, ap, ℕ, ◌≡◌, refl, subst}

pub data Exception : Type 0 where
  error_t : ℕ → Exception
  runtime_error : Exception
  out_of_range : Exception

-- How a piece of code ends from a given state.
pub data Run (S A : Type 0) : Type 0 where
  returns : A → S → Run S A
  throws : Exception → S → Run S A
  undefined : Run S A
  out_of_fuel : Run S A

abbrev pub Cmd : Type 0 → Type 0 → Type 0
Cmd S A = S → Run S A

module _ {S : Type 0} where
  abbrev pub pure : {A : Type 0} → A → Cmd S A
  pure = returns

  abbrev pub throw : {A : Type 0} → Exception → Cmd S A
  throw = throws

  abbrev pub and_then : {A B : Type 0} → Run S A → (A → Cmd S B) → Run S B
  and_then (returns a s) k = k a s
  and_then (throws e s) k = throws e s
  and_then undefined k = undefined
  and_then out_of_fuel k = out_of_fuel

  infixl 5 ◌>>=◌ ◌>>◌
  abbrev pub ◌>>=◌ : {A B : Type 0} → Cmd S A → (A → Cmd S B) → Cmd S B
  m >>= k = λ s. and_then (m s) k

  abbrev pub ◌>>◌ : {A B : Type 0} → Cmd S A → Cmd S B → Cmd S B
  m >> k = m >>= λ _. k

  -- What comes behind a run that returns.
  pub and_then-returns :
      {A B : Type 0} (k : A → Cmd S B) {m : Run S A} {r : Run S B} {a : A} {s : S}
      → m ≡ returns a s
      → k a s ≡ r
      → and_then m k ≡ r
  and_then-returns k e f = ap (λ m. and_then m k) e ∙ f

  -- Partial correctness: if the code returns, its result and its last state satisfy `P`.
  pub data Ensures {A : Type 0} (P : A → S → Type 0) : Run S A → Type 0 where
    returned : {a : A} {s : S} → P a s → Ensures P (returns a s)
    threw : {e : Exception} {s : S} → Ensures P (throws e s)
    undef : Ensures P undefined
    spent : Ensures P out_of_fuel

  abbrev Returned : {A : Type 0} → (A → S → Type 0) → Run S A → Type 0
  Returned P (returns a s) = P a s
  Returned P _ = Unit

  -- A result that is returned satisfies what the code ensures.
  pub Ensures-returns :
      {A : Type 0} {P : A → S → Type 0} {r : Run S A}
      → Ensures P r
      → (a : A) (s : S) → r ≡ returns a s
      → P a s
  Ensures-returns {P} (returned {a} {s} p) b t e = subst (Returned P) e p
  Ensures-returns threw b t e = cc
  Ensures-returns undef b t e = cc
  Ensures-returns spent b t e = cc

  pub Ensures-bind :
      {A B : Type 0} {P : A → S → Type 0} {Q : B → S → Type 0} {r : Run S A} {k : A → Cmd S B}
      → Ensures P r
      → ((a : A) (s : S) → P a s → Ensures Q (k a s))
      → Ensures Q (and_then r k)
  Ensures-bind (returned p) next = next _ _ p
  Ensures-bind threw next = threw
  Ensures-bind undef next = undef
  Ensures-bind spent next = spent

  -- Total correctness: the code returns, and its result and last state satisfy `P`.
  pub data Returns {A : Type 0} (P : A → S → Type 0) : Run S A → Type 0 where
    yields : {a : A} {s : S} → P a s → Returns P (returns a s)

  pub Returns-bind :
      {A B : Type 0} {P : A → S → Type 0} {Q : B → S → Type 0} {r : Run S A} {k : A → Cmd S B}
      → Returns P r
      → ((a : A) (s : S) → P a s → Returns Q (k a s))
      → Returns Q (and_then r k)
  Returns-bind (yields p) next = next _ _ p

  pub Returns-mono :
      {A : Type 0} {P Q : A → S → Type 0} {r : Run S A}
      → Returns P r
      → ((a : A) (s : S) → P a s → Q a s)
      → Returns Q r
  Returns-mono (yields p) weaken = yields (weaken _ _ p)

  pub Ensures-mono :
      {A : Type 0} {P Q : A → S → Type 0} {r : Run S A}
      → Ensures P r
      → ((a : A) (s : S) → P a s → Q a s)
      → Ensures Q r
  Ensures-mono (returned p) weaken = returned (weaken _ _ p)
  Ensures-mono threw weaken = threw
  Ensures-mono undef weaken = undef
  Ensures-mono spent weaken = spent

  -- What always holds of the result.
  pub Ensures-any :
      {A : Type 0} {P : A → S → Type 0} (r : Run S A) → ((a : A) (s : S) → P a s) → Ensures P r
  Ensures-any (returns a s) all = returned (all a s)
  Ensures-any (throws e s) all = threw
  Ensures-any undefined all = undef
  Ensures-any out_of_fuel all = spent

  -- What the run returns is what it returns.
  pub Ensures-self : {A : Type 0} (r : Run S A) → Ensures (λ a s. r ≡ returns a s) r
  Ensures-self (returns a s) = returned refl
  Ensures-self (throws e s) = threw
  Ensures-self undefined = undef
  Ensures-self out_of_fuel = spent

  -- A bind of whose first part nothing is needed.
  pub Ensures-then :
      {A B : Type 0} {Q : B → S → Type 0} (r : Run S A) {k : A → Cmd S B}
      → ((a : A) (s : S) → Ensures Q (k a s))
      → Ensures Q (and_then r k)
  Ensures-then (returns a s) next = next a s
  Ensures-then (throws e s) next = threw
  Ensures-then undefined next = undef
  Ensures-then out_of_fuel next = spent

  -- A bind whose first part returns.
  pub Ensures-behind :
      {A B : Type 0} {P : A → S → Type 0} {Q : B → S → Type 0} {r : Run S A} {k : A → Cmd S B}
      → Returns P r
      → ((a : A) (s : S) → P a s → Ensures Q (k a s))
      → Ensures Q (and_then r k)
  Ensures-behind (yields p) next = next _ _ p

  -- Code that returns does what it ensures as well.
  pub Returns-Ensures :
      {A : Type 0} {P Q : A → S → Type 0} {r : Run S A}
      → Returns P r
      → Ensures Q r
      → Returns (λ a s. P a s × Q a s) r
  Returns-Ensures (yields p) (returned q) = yields (p, q)

  -- What two proofs of partial correctness give together.
  pub Ensures-both :
      {A : Type 0} {P Q : A → S → Type 0} {r : Run S A}
      → Ensures P r
      → Ensures Q r
      → Ensures (λ a s. P a s × Q a s) r
  Ensures-both (returned p) (returned q) = returned (p, q)
  Ensures-both threw q = threw
  Ensures-both undef q = undef
  Ensures-both spent q = spent

  -- The result and the state of code that returns.
  pub Returns-result :
      {A : Type 0} {P : A → S → Type 0} {r : Run S A}
      → Returns P r
      → (a : A) × (s : S) × (r ≡ returns a s) × P a s
  Returns-result (yields {a} {s} p) = (a, s, refl, p)

  -- The code throws, and the exception and the state satisfy `P`.
  pub data Throws {A : Type 0} (P : Exception → S → Type 0) : Run S A → Type 0 where
    thrown : {e : Exception} {s : S} → P e s → Throws P (throws e s)

  pub Throws-bind :
      {A B : Type 0} {P : Exception → S → Type 0} {r : Run S A}
      → Throws P r
      → (k : A → Cmd S B) → Throws P (and_then r k)
  Throws-bind (thrown h) k = thrown h

  pub Throws-behind :
      {A B : Type 0} {P : Exception → S → Type 0} {Q : A → S → Type 0} {r : Run S A}
      {k : A → Cmd S B}
      → Returns Q r
      → ((a : A) (s : S) → Q a s → Throws P (k a s))
      → Throws P (and_then r k)
  Throws-behind (yields q) next = next _ _ q
