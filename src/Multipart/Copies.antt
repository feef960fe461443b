-- ===== src/Multipart/Copies.antt =====
-- src/zmq_addon.hpp: `equal` compares the bytes of the parts, and `clone` makes a message that is
-- equal to the given one.
use zmq_proxy.Cmd.{Returns, yields, Returns-bind, Returns-mono}
use zmq_proxy.Multipart.Building.{addmem-Returns}
use zmq_proxy.Multipart.Content.{clone_loop, clone, equal_loop, equal}
use zmq_proxy.Platform.{Platform, MessageLaws, Memory, Io}
use zmq_proxy.Prelude.{
  ◌≡◌, refl, sym, ◌∙◌, ◌↔◌, true, ◌&&◌, List, [], ◌∷◌, ◌++◌, map, append_assoc, append-nil, str_eq,
  str_eq_iff, arith,
}
use zmq_proxy.Zmq.Calls.{equal-str_eq}

module _ (p : Platform) where
  open p use {Msg}

  equal-cons :
      (m n : Msg) (parts other : List Msg)
      → equal p (m ∷ parts) (n ∷ other)
        ≡ (str_eq (p.zmq_msg_data m) (p.zmq_msg_data n) && equal p parts other)
  unfolding equal equal_loop
  equal-cons m n parts other = ground (arith, equal-str_eq p m n)

  -- `equal` is true exactly if the two messages have the same parts: equally many, with the same
  -- bytes in the same order.
  pub equal_iff :
      (parts other : List Msg)
      → (equal p parts other ≡ true) ↔ (map p.zmq_msg_data parts ≡ map p.zmq_msg_data other)
  unfolding equal equal_loop
  equal_iff [] [] = (λ _. refl, λ _. refl)
  equal_iff [] (m ∷ other) = ground arith
  equal_iff (m ∷ parts) [] = ground arith
  equal_iff (m ∷ parts) (n ∷ other) = ground (
    arith,
    equal-cons m n parts other,
    equal_iff parts other,
    str_eq_iff (p.zmq_msg_data m) (p.zmq_msg_data n),
  )

  module _ (laws : MessageLaws p) (memory : Memory p) where
    clone_loop-Returns :
        (parts multipart : List Msg) (s : Io p)
        → Returns
            (λ copied t.
              (map p.zmq_msg_data copied ≡ map p.zmq_msg_data multipart ++ map p.zmq_msg_data parts)
              × (t.sent ≡ s.sent))
            (clone_loop p parts multipart s)
    unfolding clone_loop
    clone_loop-Returns [] multipart s = yields (sym (append-nil _), refl)
    clone_loop-Returns (m ∷ parts) multipart s =
        Returns-bind (addmem-Returns p laws memory (p.zmq_msg_data m) multipart s)
          λ next t (d, kept). Returns-mono (clone_loop-Returns parts next t) λ copied u (e, kept').
            (
              e
                  ∙ rw (d, append_assoc (map p.zmq_msg_data multipart) _ (map p.zmq_msg_data parts))
                      refl,
              kept' ∙ kept,
            )

    -- If memory does not run out, `clone` returns a message that `equal` does not tell from the one
    -- it was given, and sends nothing.
    pub clone-equal :
        (parts : List Msg) (s : Io p)
        → Returns (λ copied t. (equal p copied parts ≡ true) × (t.sent ≡ s.sent)) (clone p parts s)
    unfolding clone
    clone-equal parts s =
        Returns-mono (clone_loop-Returns parts [] s)
          λ copied t (e, kept). ((equal_iff copied parts).1 e, kept)
