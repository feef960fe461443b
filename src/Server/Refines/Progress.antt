-- ===== src/Server/Refines/Progress.antt =====
-- src/zmq_server.cc: how far `Server::Start` gets with peers that send when they like.
use zmq_proxy.Multipart.Outcomes.{Outcome, Sending, Prefix, Yields, Yields-Sending}
use zmq_proxy.Cmd.{Returns, yields, Returns-mono, Returns-result, returns}
use zmq_proxy.Platform.{Platform, MessageLaws, Memory, Io}
use zmq_proxy.Prelude.{
  ℕ, zero, suc, ◌+◌, ◌<◌, ◌≡◌, ◌≢◌, refl, sym, ap, ◌∙◌, subst, true, ◌&&◌, List, length, ◌==◌,
  arith, Bool-cases, inl, inr, ◌⊎◌,
}
use zmq_proxy.Server.Proxy.Invariant.{Serving}
use zmq_proxy.Server.Proxy.Ready.{Readiness}
use zmq_proxy.Server.Proxy.Steps.{Steady}
use zmq_proxy.Server.Proxy.{Flow, Loop, continues, breaks, round, rounds, start}
use zmq_proxy.Server.Refines.Polled.{ready_poll}
use zmq_proxy.Server.Refines.Rounds.{Advanced, Advanced-zero, Advanced-suc, round-Round}
use zmq_proxy.Server.Refines.Runs.{Runs, first_loop, first-Serving, Advanced-Runs}
use zmq_proxy.Server.Refines.{ends, view, Traced}
use zmq_proxy.Server.Spec.{Event, Round}
use zmq_proxy.Server.Registry.Identities.{Distinct, ids}
use zmq_proxy.Server.Clock.{Reads, clock_after-Reads}
use zmq_proxy.Server.State.{clock_after, heartbeat_interval, Server}

-- There is no worker, so that the front socket is not polled, but its bit is still set from a
-- round before: the round reads a socket of which it does not know that a message waits.
abbrev pub Stale : {p : Platform} → Flow p → Type 0
Stale (continues l) = (length l.server.vec_work ≡ 0) × (l.front_in ≡ true)
Stale (breaks l) = ⊥

module _ (p : Platform) (parts : ℕ) (laws : MessageLaws p) {outcome : Outcome p}
    (sending : Sending p outcome) (steady : Steady p parts) (readiness : Readiness p parts)
    (origin : Server p) (apart : origin.back_sock ≢ origin.front_sock) where
  -- `n` rounds have been run, or fewer, which end in front of a round that reads a stale bit.
  abbrev Progresses : ℕ → Loop p → Io p → Type 0
  Progresses n l s =
      Returns (Advanced p parts laws sending steady origin n l s) (rounds p parts n l s)
      ⊎ ((k : ℕ) × (k < n)
          × Returns
              (λ flow t. Advanced p parts laws sending steady origin k l s flow t × Stale flow)
              (rounds p parts k l s))

  rounds-behind :
      (n : ℕ) (l l' : Loop p) (s t : Io p)
      → l.server.running ≡ true
      → round p parts l s ≡ returns (continues l') t
      → rounds p parts (suc n) l s ≡ rounds p parts n l' t
  unfolding rounds
  rounds-behind n l l' s t on e = simp (on, e) refl

  -- What a round leads to, the rounds from there on lead to as well.
  Progresses-suc :
      (n : ℕ) (l l' : Loop p) (s t : Io p) {xs : List Event}
      → l.server.running ≡ true
      → round p parts l s ≡ returns (continues l') t
      → Round (view p l) xs (view p l')
      → Traced p outcome (ends p origin) s t xs
      → Progresses n l' t
      → Progresses (suc n) l s
  Progresses-suc n l l' s t on e step tx (inl all) = inl (
      subst (Returns _) (sym (rounds-behind n l l' s t on e)) (
        Returns-mono all
          λ flow u a. Advanced-suc p parts laws sending steady origin n l l' s t step tx a))
  Progresses-suc n l l' s t on e step tx (inr (k, fewer, stuck)) = inr (
    suc k,
    omega arith,
    subst (Returns _) (sym (rounds-behind k l l' s t on e)) (
        Returns-mono stuck λ flow u (a, stale).
          (Advanced-suc p parts laws sending steady origin k l l' s t step tx a, stale)),
  )

  rounds-Progresses : (n : ℕ) (l : Loop p) (s : Io p) → Serving p origin l.server → Progresses n l s
  unfolding rounds
  rounds-Progresses zero l s v =
      inl (yields (Advanced-zero p parts laws sending steady origin l s v))
  rounds-Progresses (suc n) l s v =
      elim (Bool-cases (length l.server.vec_work == 0 && l.front_in)) [
        | inl stale ↦ inr (
          0,
          omega arith,
          yields (
            Advanced-zero p parts laws sending steady origin l s v,
            (ground (arith, stale), ground (arith, stale)),
          ),
        )
        | inr fresh ↦
            let (flow, t, e, (l', f, v', xs, step, tx)) = Returns-result (
              round-Round p parts laws sending steady origin l s v
                (ready_poll p parts laws sending steady readiness origin apart l s v fresh)) in
            Progresses-suc n l l' s t v.running (e ∙ ap (λ x. returns x t) f) step tx
              (rounds-Progresses n l' t v')
      ]

start-behind :
    (p : Platform) (parts n : ℕ) (server : Server p) (at : ℕ) (s t : Io p)
    → clock_after p heartbeat_interval s ≡ returns at t
    → start p parts n server s ≡ rounds p parts n (first_loop server at) t
unfolding start
start-behind p parts n server at s t e = rw e refl

module _ (p : Platform) (parts : ℕ) where
  -- Suppose POLLIN has its documented meaning, and nothing is known of when the peers send,
  -- only that their messages have at most `parts` parts; and each zmq_msg_send accepts its
  -- frame or gives up with EAGAIN. If the two sockets are distinct, zmq_poll does not fail,
  -- the clock is in range, memory does not run out, messages behave as documented, and the
  -- workers have distinct identities, then for any number `n` of rounds either `n` rounds of
  -- `Start` return, and they are as many rounds of Server/Spec, with some of the frames in
  -- front accepted of each message that is sent; or fewer do, and behind them there is no
  -- worker while the bit of the front socket is still set.
  pub start-Progresses :
      MessageLaws p
      → Memory p
      → Yields p
      → Steady p parts
      → Readiness p parts
      → (n : ℕ) (server : Server p) (s : Io p) → server.back_sock ≢ server.front_sock
      → Distinct (ids p server.vec_work)
      → Returns (λ flow t. Runs p (Prefix p) n server s flow t) (start p parts n server s)
        ⊎ ((k : ℕ) × (k < n)
            × Returns
                (λ flow t. Runs p (Prefix p) k server s flow t × Stale flow)
                (start p parts k server s))
  start-Progresses laws memory yielding steady readiness n server s apart d =
      let (at, t, e, (now, reading, first, kept)) =
        Returns-result (clock_after-Reads p steady.clock_fits heartbeat_interval s (omega arith)) in
      by_rounds at now t e reading first kept (
        rounds-Progresses p parts laws (Yields-Sending p memory yielding) steady readiness server
          apart n (first_loop server at) t
          (first-Serving p parts laws (Yields-Sending p memory yielding) steady server at d))
    where
      by_rounds :
          (at now : ℕ) (t : Io p)
          → clock_after p heartbeat_interval s ≡ returns at t
          → Reads p s.world now t.world
          → at ≡ now + heartbeat_interval
          → t.sent ≡ s.sent
          → Progresses p parts laws
              (Yields-Sending p memory yielding)
              steady
              readiness
              server
              apart
              n
              (first_loop server at)
              t
          → Returns (λ flow u. Runs p (Prefix p) n server s flow u) (start p parts n server s)
            ⊎ ((k : ℕ) × (k < n)
                × Returns
                    (λ flow u. Runs p (Prefix p) k server s flow u × Stale flow)
                    (start p parts k server s))
      by_rounds at now t e reading first kept (inl all) = inl (
          subst (Returns _) (sym (start-behind p parts n server at s t e)) (
            Returns-mono all λ flow u a.
              Advanced-Runs p parts laws (Yields-Sending p memory yielding) steady server n reading
                first kept a))
      by_rounds at now t e reading first kept (inr (k, fewer, stuck)) = inr (
        k,
        fewer,
        subst (Returns _) (sym (start-behind p parts k server at s t e)) (
            Returns-mono stuck λ flow u (a, stale). (
              Advanced-Runs p parts laws (Yields-Sending p memory yielding) steady server k reading
                  first kept a,
              stale,
            )),
      )
