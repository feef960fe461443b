-- ===== src/Multipart/Building.antt =====
-- src/zmq_addon.hpp: the parts that `pushmem` and `addstr` build carry the given bytes.
use zmq_proxy.Cmd.{Returns, yields, Returns-bind}
use zmq_proxy.Multipart.Content.{addmem, pushmem, addstr}
use zmq_proxy.Platform.{Platform, MessageLaws, Memory, Io}
use zmq_proxy.Prelude.{◌≡◌, List, [], ◌∷◌, ◌++◌, Bytes, map, map-append}
use zmq_proxy.Zmq.Calls.{message_of-Returns}

module _ (p : Platform) (laws : MessageLaws p) (memory : Memory p) where
  open p use {Msg}

  -- The bytes of the parts are `b` in front of those from before, and nothing is sent.
  pub pushmem-Returns :
      (b : Bytes) (parts : List Msg) (s : Io p)
      → Returns
          (λ parts' t.
            (map p.zmq_msg_data parts' ≡ b ∷ map p.zmq_msg_data parts) × (t.sent ≡ s.sent))
          (pushmem p b parts s)
  unfolding pushmem
  pushmem-Returns b parts s =
      Returns-bind (message_of-Returns p laws memory b s) λ m t (d, kept). yields (rw d, kept)

  -- The bytes of the parts are `b` behind those from before, and nothing is sent.
  pub addstr-Returns :
      (b : Bytes) (parts : List Msg) (s : Io p)
      → Returns
          (λ parts' t.
            (map p.zmq_msg_data parts' ≡ map p.zmq_msg_data parts ++ b ∷ []) × (t.sent ≡ s.sent))
          (addstr p b parts s)
  unfolding addstr
  addstr-Returns b parts s =
      Returns-bind (message_of-Returns p laws memory b s)
        λ m t (d, kept). yields (rw (map-append, d), kept)

  -- The same for `addmem`.
  pub addmem-Returns :
      (b : Bytes) (parts : List Msg) (s : Io p)
      → Returns
          (λ parts' t.
            (map p.zmq_msg_data parts' ≡ map p.zmq_msg_data parts ++ b ∷ []) × (t.sent ≡ s.sent))
          (addmem p b parts s)
  unfolding addmem addstr
  addmem-Returns b parts s = addstr-Returns b parts s
