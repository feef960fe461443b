-- ===== src/Server/Refines/Branches.antt =====
-- src/zmq_server.cc: the branches for the two sockets refine the steps of Server/Spec.
use zmq_proxy.Cmd.{Returns-Ensures, Run, Returns, yields, Returns-mono}
use zmq_proxy.Multipart.Wire.{Delivers}
use zmq_proxy.Platform.{Platform, MessageLaws, Io, no_flags}
use zmq_proxy.Prelude.{
  length-map, str_eq_refl, ℕ, ◌<◌, ◌≡◌, ◌≢◌, refl, sym, ap, ◌∙◌, fun_ext, List, [], ◌∷◌, map,
  length, str_eq, str_eq_iff, arith, Bool-cases, inl, inr,
}
use zmq_proxy.Server.Proxy.Forward.{backend-two_parts}
use zmq_proxy.Server.Proxy.Sends.{Replies, frontend-Replies, backend-Grows}
use zmq_proxy.Multipart.Outcomes.{Outcome, Sending}
use zmq_proxy.Server.Proxy.Steps.{FedAt}
use zmq_proxy.Zmq.Silent.{Silent, no_calls}
use zmq_proxy.Server.Proxy.Silence.{backend-IsSilent_behind, frontend-IsSilent_behind}
use zmq_proxy.Server.Proxy.{Loop, backend, frontend, no_worker_text}
use zmq_proxy.Server.Refines.{
  arrival, ends, seen, Traced, quiet, hears_worker, hears_client, reads_clock, answers_client,
  writes_worker,
}
use zmq_proxy.Server.Registry.{make_new_worker}
use zmq_proxy.Server.Registry.Insertion.{make_new_worker-insert}
use zmq_proxy.Server.Registry.Table.{expiry_of-nobody, expiry_of-get_elem?}
use zmq_proxy.Server.Spec.{
  Event, worker_says, client_says, tells_client, tells_worker, clock_says, Back, registers, drops,
  relays, Front, dispatches, refuses,
}
use zmq_proxy.Server.Clock.{ClockFits}
use zmq_proxy.Server.State.{heartbeat_key, Server}

module _ (p : Platform) (parts : ℕ) (laws : MessageLaws p) {outcome : Outcome p}
    (sending : Sending p outcome) (clock_fits : ClockFits p) where
  open p use {Msg, World}

  module _ (l : Loop p) (server : Server p) (at : ℕ) (s : Io p) where
    -- The run takes the server through a `Back` step.
    abbrev pub StepsBack : Run (Io p) (Server p) → Type 0
    StepsBack = Returns λ server' t.
        (es : List Event) × Back (seen p l server at) es (seen p l server' at)
        × Traced p outcome (ends p server) s t es

    relayed :
        {first : Msg} {w' : World} (rest : List Msg)
        → Delivers p server.back_sock no_flags s.world (first ∷ rest) w'
        → length rest < parts
        → length rest ≢ 1
        → StepsBack (backend p parts server s)
    relayed {first} {w'} rest d h other =
        let msg = map p.zmq_msg_data rest in
        let id = p.zmq_msg_data first in
        Returns-mono
          (Returns-Ensures (backend-Grows p sending parts server s.sent d h other)
            (backend-IsSilent_behind p parts server s.sent d h (ground (arith, other))))
          λ server' t ((e, grown), silent). (
            worker_says (id ∷ msg) ∷ tells_client msg ∷ [],
            relays id msg (λ one. other (sym (length-map p.zmq_msg_data rest) ∙ one)) refl
                (ap (λ (r : Server p). seen p l r at) e),
            hears_worker (arrival p d) refl (answers_client silent grown (quiet no_calls refl)),
          )

    registered :
        {first data_ : Msg} {w' : World}
        → Delivers p server.back_sock no_flags s.world (first ∷ data_ ∷ []) w'
        → p.zmq_msg_data data_ ≡ heartbeat_key
        → StepsBack (make_new_worker p first server (record { world = w'; sent = s.sent }))
    registered {first} {data_} {w'} d key =
        let id = p.zmq_msg_data first in
        Returns-mono
          (make_new_worker-insert p clock_fits first server (record { world = w'; sent = s.sent })
            laws sending.memory)
          λ server' t ((now, reading, inserted), kept). (
            worker_says (id ∷ p.zmq_msg_data data_ ∷ []) ∷ clock_says now ∷ [],
            registers id now (ap (λ k. worker_says (id ∷ k ∷ []) ∷ clock_says now ∷ []) key)
                (ap (λ table. record (seen p l server at) { table = table }) (fun_ext inserted)),
            hears_worker (arrival p d) refl (reads_clock reading kept (quiet no_calls refl)),
          )

    pub backend-StepsBack :
        FedAt p parts server.back_sock s.world → StepsBack (backend p parts server s)
    backend-StepsBack fed = let (first, rest, w', d, h) = fed in by_rest rest d h
      where
        by_rest :
            {first : Msg} {w' : World} (rest : List Msg)
            → Delivers p server.back_sock no_flags s.world (first ∷ rest) w'
            → length rest < parts
            → StepsBack (backend p parts server s)
        by_rest [] d h = relayed [] d h (omega arith)
        by_rest {first} {w'} (data_ ∷ []) d h =
            rw (backend-two_parts p parts server s.sent d h)
              (elim (Bool-cases (str_eq (p.zmq_msg_data data_) heartbeat_key)) [
                | inl same ↦
                    rw same
                      (registered d ((str_eq_iff (p.zmq_msg_data data_) heartbeat_key).0 same))
                | inr other ↦ rw other (
                    yields (
                      worker_says (p.zmq_msg_data first ∷ p.zmq_msg_data data_ ∷ []) ∷ [],
                      drops (p.zmq_msg_data first) (p.zmq_msg_data data_)
                          (λ e. ground (arith, other, e, str_eq_refl heartbeat_key)) refl refl,
                      hears_worker (arrival p d) refl (quiet no_calls refl),
                    ))
              ])
        by_rest (a ∷ b ∷ rest) d h = relayed (a ∷ b ∷ rest) d h (omega arith)

    -- The run takes the server through a `Front` step.
    abbrev pub StepsFront : Run (Io p) (Unit {0}) → Type 0
    StepsFront = Returns λ _ t.
        (es : List Event) × Front (seen p l server at) es × Traced p outcome (ends p server) s t es

    pub frontend-StepsFront :
        FedAt p parts server.front_sock s.world → StepsFront (frontend p parts server s)
    frontend-StepsFront fed =
        let (first, rest, w', d, h) = fed in
        Returns-mono
          (Returns-Ensures (frontend-Replies p sending parts server laws s.sent d h)
            (frontend-IsSilent_behind p parts server s.sent d h))
          λ _ t (a, silent). by_answer d silent a
      where
        by_answer :
            {first : Msg} {rest : List Msg} {w' : World} {t : Io p}
            → Delivers p server.front_sock no_flags s.world (first ∷ rest) w'
            → Silent p w' t.world
            → Replies p outcome server first rest s.sent t
            → (es : List Event) × Front (seen p l server at) es
              × Traced p outcome (ends p server) s t es
        by_answer {first} {rest} {w'} {t} d silent (inl (none_left, grown)) = (
          client_says (map p.zmq_msg_data (first ∷ rest))
              ∷ tells_client (p.zmq_msg_data first ∷ [] ∷ no_worker_text ∷ [])
              ∷ [],
          refuses (p.zmq_msg_data first) (map p.zmq_msg_data rest)
              (λ id. expiry_of-nobody p id server.vec_work none_left) refl,
          hears_client (arrival p d) refl (answers_client silent grown (quiet no_calls refl)),
        )
        by_answer {first} {rest} {w'} {t} d silent (inr (worker_id, names, grown)) =
            let request = map p.zmq_msg_data (first ∷ rest) in
            let (e, at_id) =
              expiry_of-get_elem? p server.vec_work names.position names.worker names.stands in
            (
              client_says request ∷ tells_worker (p.zmq_msg_data worker_id ∷ request) ∷ [],
              dispatches (p.zmq_msg_data worker_id) e request (rw (names.identity) at_id) refl,
              hears_client (arrival p d) refl (writes_worker silent grown (quiet no_calls refl)),
            )
