-- ===== src/Multipart/Joining.antt =====
-- src/zmq_addon.hpp: `append` and `prepend`, which move the parts of another message one by one, join
-- the two messages.
use zmq_proxy.Cmd.{returns}
use zmq_proxy.Multipart.Deque.{split_last, append, prepend_loop, prepend, remove, push}
use zmq_proxy.Prelude.{
  ℕ, zero, suc, ◌≤◌, ◌≡◌, refl, sym, ap, ◌∙◌, List, [], ◌∷◌, ◌++◌, append_assoc, append-nil, length,
  arith,
}

module _ {A : Type 0} where
  -- What `split_last` takes apart is the list.
  split_last-append :
      (a : A) (parts : List A)
      → ((split_last a parts).1 ++ (split_last a parts).0 ∷ [] ≡ a ∷ parts)
        × (length (split_last a parts).1 ≡ length parts)
  unfolding split_last
  split_last-append a [] = (refl, refl)
  split_last-append a (b ∷ parts) =
      let (e, n) = split_last-append b parts in (ap (λ l. a ∷ l) e, ap suc n)

  append-joins : (other parts : List A) → append other parts ≡ parts ++ other
  unfolding append
  append-joins [] parts = sym (append-nil parts)
  append-joins (m ∷ other) parts =
      append-joins other (parts ++ m ∷ []) ∙ append_assoc parts (m ∷ []) other

module _ {S A : Type 0} where
  prepend_loop-joins :
      (fuel : ℕ) (other parts : List A) (s : S)
      → length other ≤ fuel
      → prepend_loop fuel other parts s ≡ returns (other ++ parts) s
  unfolding prepend_loop remove
  prepend_loop-joins fuel [] parts s h = refl
  prepend_loop-joins zero (a ∷ other) parts s h = absurd (omega arith)
  prepend_loop-joins (suc fuel) (a ∷ other) parts s h =
      let (e, n) = split_last-append a other in
      prepend_loop-joins fuel (split_last a other).1 (push (split_last a other).0 parts) s
        (omega (arith, n))
      ∙ ap (λ l. returns l s)
          (sym (append_assoc (split_last a other).1 ((split_last a other).0 ∷ []) parts)
            ∙ ap (λ l. l ++ parts) e)

  -- `append` returns the parts of `parts` and behind them those of `other`, and `prepend` those of
  -- `other` and behind them those of `parts`, both in their order, for any two messages.
  pub append-prepend-join :
      (other parts : List A) (s : S)
      → (append other parts ≡ parts ++ other) × (prepend other parts s ≡ returns (other ++ parts) s)
  unfolding prepend
  append-prepend-join other parts s =
      (append-joins other parts, prepend_loop-joins (length other) other parts s (omega arith))
