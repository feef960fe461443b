-- ===== src/Multipart/Deque.antt =====
-- src/zmq_addon.hpp: the operations of `multipart_t` that move whole parts, for any type of part.
use zmq_proxy.Cmd.{Cmd, returns, throws, undefined, out_of_fuel, out_of_range, pure, ◌>>=◌}
use zmq_proxy.Prelude.{
  ℕ, zero, suc, Bool, true, false, none, some, List, [], ◌∷◌, ◌++◌, length, get_elem?,
}

module _ {A : Type 0} where
  -- `push (message_t&& message)`
  abbrev pub push : A → List A → List A
  push message parts = message ∷ parts

  -- `add (message_t&& message)`
  abbrev pub add : A → List A → List A
  add message parts = parts ++ message ∷ []

  abbrev pub empty : List A → Bool
  empty [] = true
  empty (_ ∷ _) = false

  -- The last part, and the ones before it.
  unfoldable pub split_last : A → List A → A × List A
  split_last a [] = (a, [])
  split_last a (b ∷ parts) = let (l, before) = split_last b parts in (l, a ∷ before)

  -- `append`: the parts of `other` are popped and added one by one.
  unfoldable pub append : List A → List A → List A
  append [] parts = parts
  append (message ∷ other) parts = append other (add message parts)

module _ {S A : Type 0} where
  -- `operator[]`, `peek`: out of range is undefined behaviour.
  unfoldable pub peek : ℕ → List A → Cmd S A
  peek n parts s = elim (get_elem? parts n) [ none ↦ undefined | some m ↦ returns m s ]

  -- `at`
  unfoldable pub at : ℕ → List A → Cmd S A
  at n parts s = elim (get_elem? parts n) [ none ↦ throws out_of_range s | some m ↦ returns m s ]

  -- `pop`: `front ()` of an empty deque is undefined behaviour.
  unfoldable pub pop : List A → Cmd S (A × List A)
  pop [] s = undefined
  pop (message ∷ parts) s = returns (message, parts) s

  -- `remove`: `back ()` of an empty deque is undefined behaviour.
  unfoldable pub remove : List A → Cmd S (A × List A)
  remove [] s = undefined
  remove (a ∷ parts) s = returns (split_last a parts) s

  -- The loop of `prepend`, with the rounds that are left.
  unfoldable pub prepend_loop : ℕ → List A → List A → Cmd S (List A)
  prepend_loop fuel [] parts = pure parts
  prepend_loop zero (_ ∷ _) parts = λ _. out_of_fuel
  prepend_loop (suc fuel) (a ∷ other) parts = do
    (message, rest) ← remove (a ∷ other)
    prepend_loop fuel rest (push message parts)

  -- `prepend`: the parts of `other` are removed from its back and pushed. `other` is left empty.
  unfoldable pub prepend : List A → List A → Cmd S (List A)
  unfolding prepend_loop
  prepend other parts = prepend_loop (length other) other parts
