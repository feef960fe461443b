-- ===== src/Multipart/Ends.antt =====
-- src/zmq_addon.hpp: what is put on an end of a message is what is taken from there.
use zmq_proxy.Cmd.{Returns, yields, Returns-bind, returns, pure, throw, runtime_error}
use zmq_proxy.Multipart.Content.{pushtyp, poptyp}
use zmq_proxy.Multipart.Deque.{push, add, pop, remove, split_last}
use zmq_proxy.Platform.{Platform, MessageLaws, Memory, Io}
use zmq_proxy.Prelude.{
  ℕ, ◌≡◌, refl, ap, List, [], ◌∷◌, ◌++◌, Bytes, length, if◌then◌else◌, ◌==◌, Bool-cases, inl, inr,
}
use zmq_proxy.Zmq
use zmq_proxy.Zmq.Calls.{message_of-Returns}

split_last-concat :
    {A : Type 0} (a m : A) (parts : List A) → split_last a (parts ++ m ∷ []) ≡ (m, a ∷ parts)
unfolding split_last
split_last-concat a m [] = refl
split_last-concat a m (b ∷ parts) =
    ap (λ (l, before). (l, a ∷ before)) (split_last-concat b m parts)

module _ {S A : Type 0} where
  -- A part that `push` puts in front is the one that `pop` takes, and a part that `add` puts behind is
  -- the one that `remove` takes; each leaves the parts from before.
  pub push-add-pop-remove :
      (m : A) (parts : List A) (s : S)
      → (pop (push m parts) s ≡ returns (m, parts) s)
        × (remove (add m parts) s ≡ returns (m, parts) s)
  unfolding pop remove split_last
  push-add-pop-remove m [] s = (refl, refl)
  push-add-pop-remove m (a ∷ parts) s = (refl, ap (λ r. returns r s) (split_last-concat a m parts))

module _ (p : Platform) (laws : MessageLaws p) (memory : Memory p) where
  open p use {Msg}

  -- If memory does not run out, then behind `pushtyp` of a value `poptyp` returns the value and the
  -- parts from before where its type has the size of the value, and throws where it has another.
  pub pushtyp-poptyp :
      (b : Bytes) (parts : List Msg) (s : Io p)
      → Returns
          (λ parts' t.
            (n : ℕ)
            → poptyp p n parts' t
              ≡ (if n == length b then pure (b, parts) else throw runtime_error) t)
          (pushtyp p b parts s)
  unfolding pushtyp poptyp Zmq.size
  pushtyp-poptyp b parts s = Returns-bind (message_of-Returns p laws memory b s) λ m t (d, _).
      yields λ n. elim (Bool-cases (n == length b)) [
        | inl fits ↦ rw (d, fits) refl
        | inr other ↦ rw (d, other) refl
      ]
