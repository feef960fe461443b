-- ===== src/Server/Registry/Check.antt =====
-- src/zmq_server.cc: what `CheckWorker` leaves in the list of workers.
use zmq_proxy.Cmd.{returns, pure, and_then, ◌>>=◌}
use zmq_proxy.Platform.{Platform, Io}
use zmq_proxy.Prelude.{
  ℕ, zero, suc, ◌+◌, ◌-◌, ◌≤◌, ◌≡◌, refl, ap, ◌∙◌, fun_ext, true, some, List, [], ◌∷◌, ◌++◌, length,
  length-append, get_elem?, if◌then◌else◌, ltb, lt→ltb, arith, append_assoc, Bool-cases, append-nil,
  inl, inr,
}
use zmq_proxy.Server.Registry.{erase_at, check_loop, check_worker}
use zmq_proxy.Server.State.{Worker, Server, s_clock}

-- The workers that have not expired at `clock`, in their order.
unfoldable pub live : {Msg : Type 0} → ℕ → List (Worker Msg) → List (Worker Msg)
live clock [] = []
live clock (w ∷ ws) = if ltb w.expiry clock then live clock ws else w ∷ live clock ws

module _ {A : Type 0} where
  get_elem?-middle :
      (pre : List A) (x : A) (xs : List A) → get_elem? (pre ++ x ∷ xs) (length pre) ≡ some x
  get_elem?-middle [] x xs = refl
  get_elem?-middle (y ∷ pre) x xs = get_elem?-middle pre x xs

  erase_at-middle :
      (pre : List A) (x : A) (xs : List A) → erase_at (length pre) (pre ++ x ∷ xs) ≡ pre ++ xs
  unfolding erase_at
  erase_at-middle [] x xs = refl
  erase_at-middle (y ∷ pre) x xs = ap (◌∷◌ y) (erase_at-middle pre x xs)

in_range :
    {A : Type 0} (pre ws : List A) (w : A)
    → ltb (length pre + 1) (length (pre ++ w ∷ ws) + 1) ≡ true
in_range pre ws w = lt→ltb _ _ (omega (arith, length-append pre (w ∷ ws)))

add-sub : (n : ℕ) → n + 1 - 1 ≡ n
add-sub n = omega arith

module _ (p : Platform) (clock : ℕ) where
  open p use {Msg}

  -- At the end of the list the loop returns it.
  check_loop-end :
      (fuel : ℕ) (pre : List (Worker Msg)) (s : Io p)
      → check_loop p fuel clock (length pre + 1) pre s ≡ returns pre s
  unfolding check_loop
  check_loop-end zero pre s = ground arith
  check_loop-end (suc fuel) pre s = ground arith

  -- One round, at worker `w`.
  check_loop-step :
      (fuel : ℕ) (pre ws : List (Worker Msg)) (w : Worker Msg) (s : Io p)
      → check_loop p (suc fuel) clock (length pre + 1) (pre ++ w ∷ ws) s ≡ (
          if ltb w.expiry clock
          then check_loop p fuel clock (length pre + 1) (pre ++ ws) s
          else check_loop p fuel clock (length pre + 1 + 1) (pre ++ w ∷ ws) s)
  unfolding check_loop
  check_loop-step fuel pre ws w s =
      rw (in_range pre ws w, add-sub (length pre), get_elem?-middle pre w ws)
        (elim (Bool-cases (ltb w.expiry clock)) [
          | inl old ↦ rw (old, add-sub (length pre), erase_at-middle pre w ws)
          | inr young ↦ rw young
        ])

  check_loop-live :
      (fuel : ℕ) (pre ws : List (Worker Msg)) (s : Io p)
      → length ws ≤ fuel
      → check_loop p fuel clock (length pre + 1) (pre ++ ws) s ≡ returns (pre ++ live clock ws) s
  unfolding live
  check_loop-live fuel pre [] s h = rw append-nil (check_loop-end fuel pre s)
  check_loop-live zero pre (w ∷ ws) s h = absurd (omega arith)
  check_loop-live (suc fuel) pre (w ∷ ws) s h =
      check_loop-step fuel pre ws w s ∙ elim (Bool-cases (ltb w.expiry clock)) [
        | inl old ↦ rw old (check_loop-live fuel pre ws s (omega arith))
        | inr young ↦ rw young (
            simp (length-append, append_assoc) at
              (check_loop-live fuel (pre ++ w ∷ []) ws s (omega arith)))
      ]

module _ (p : Platform) where
  -- `CheckWorker` reads the clock once, and keeps exactly the workers whose `expiry` is not before
  -- it, in their order. This is with an iterator taken as its distance from `begin ()`, so that
  -- `erase (begin ()) - 1`, for which the C++ standard gives no meaning, is the place before the first.
  pub check_worker-live :
      (server : Server p) (s : Io p)
      → check_worker p server s
        ≡ (s_clock p >>= λ now. pure (record server { vec_work = live now server.vec_work })) s
  unfolding check_worker
  check_worker-live server s = ap (and_then (s_clock p s)) (
      fun_ext λ now.
        fun_ext λ t.
          rw (check_loop-live p now (length server.vec_work) [] server.vec_work t (omega arith)))
