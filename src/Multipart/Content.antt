-- ===== src/Multipart/Content.antt =====
-- src/zmq_addon.hpp: the operations of `multipart_t` that read or write the bytes of the parts.
-- A value of a fixed-size type `T` is its object representation, `sizeof(T)` bytes.
use zmq_proxy.Cmd.{Cmd, undefined, runtime_error, pure, throw, ◌>>=◌}
use zmq_proxy.Multipart.Deque.{push, add, peek}
use zmq_proxy.Platform.{Platform, Io}
use zmq_proxy.Prelude.{ℕ, Bool, true, false, not, List, [], ◌∷◌, Bytes, length, if◌then◌else◌, ◌==◌}
use zmq_proxy.Zmq
use zmq_proxy.Zmq.{message_of}

module _ (p : Platform) where
  open p use {Msg}

  -- `pushmem`; `pushstr` and `pushtyp` do the same with the bytes of a string or a value.
  unfoldable pub pushmem : Bytes → List Msg → Cmd (Io p) (List Msg)
  pushmem src parts = do message ← message_of p src; pure (push message parts)

  unfoldable pub pushstr : Bytes → List Msg → Cmd (Io p) (List Msg)
  pushstr string parts = do message ← message_of p string; pure (push message parts)

  unfoldable pub pushtyp : Bytes → List Msg → Cmd (Io p) (List Msg)
  pushtyp type parts = do message ← message_of p type; pure (push message parts)

  unfoldable pub addmem : Bytes → List Msg → Cmd (Io p) (List Msg)
  addmem src parts = do message ← message_of p src; pure (add message parts)

  unfoldable pub addstr : Bytes → List Msg → Cmd (Io p) (List Msg)
  addstr string parts = do message ← message_of p string; pure (add message parts)

  unfoldable pub addtyp : Bytes → List Msg → Cmd (Io p) (List Msg)
  addtyp type parts = do message ← message_of p type; pure (add message parts)

  -- `popstr`
  unfoldable pub popstr : List Msg → Cmd (Io p) (Bytes × List Msg)
  popstr [] = λ _. undefined
  popstr (front ∷ parts) = pure (p.zmq_msg_data front, parts)

  -- `poptyp`, for a type of `sizeof_t` bytes
  unfoldable pub poptyp : ℕ → List Msg → Cmd (Io p) (Bytes × List Msg)
  poptyp sizeof_t [] = λ _. undefined
  poptyp sizeof_t (front ∷ parts) =
      if not (sizeof_t == Zmq.size p front)
      then throw runtime_error
      else pure (p.zmq_msg_data front, parts)

  unfoldable pub peekstr : ℕ → List Msg → Cmd (Io p) Bytes
  peekstr n parts = do message ← peek n parts; pure (p.zmq_msg_data message)

  unfoldable pub peektyp : ℕ → ℕ → List Msg → Cmd (Io p) Bytes
  peektyp sizeof_t n parts = do
    message ← peek n parts
    if not (sizeof_t == Zmq.size p message)
        then throw runtime_error
        else pure (p.zmq_msg_data message)

  -- `create`
  unfoldable pub create : Bytes → Cmd (Io p) (List Msg)
  unfolding addtyp
  create type = addtyp type []

  -- The loop of `clone`, over the parts not yet copied.
  unfoldable pub clone_loop : List Msg → List Msg → Cmd (Io p) (List Msg)
  clone_loop [] multipart = pure multipart
  clone_loop (part ∷ parts) multipart = do
    next ← addmem (p.zmq_msg_data part) multipart
    clone_loop parts next

  unfoldable pub clone : List Msg → Cmd (Io p) (List Msg)
  unfolding clone_loop
  clone parts = clone_loop parts []

  -- The loop of `equal`, over the parts not yet compared.
  unfoldable pub equal_loop : List Msg → List Msg → Bool
  equal_loop (part ∷ parts) (other ∷ others) =
      if not (Zmq.equal p part other) then false else equal_loop parts others
  equal_loop _ _ = true

  unfoldable pub equal : List Msg → List Msg → Bool
  unfolding equal_loop
  equal parts other = if not (length parts == length other) then false else equal_loop parts other
