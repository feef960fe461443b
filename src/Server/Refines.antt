-- ===== src/Server/Refines.antt =====
-- src/zmq_server.cc: how a run of `Server::Start` is a trace of Server/Spec: the map that a list of
-- workers stands for, and the calls that the events of a trace stand for.
pub mod Asking
pub mod Branches
pub mod Upkeep
pub mod Serve
pub mod Rounds
pub mod Runs
pub mod Traces
pub mod Workers
pub mod Polled
pub mod Progress
pub mod Dispatching
use zmq_proxy.Multipart.Outcomes.{Outcome, Grows, Grows-at, Grows-Whole, Whole}
use zmq_proxy.Multipart.Wire.{frames, Delivers}
use zmq_proxy.Platform.{Platform, Frame, Io, no_flags}
use zmq_proxy.Prelude.{
  some, Option, Bool, Bool, Option, none, some, append-nil, Bytes, ℕ, ◌≡◌, refl, sym, ap, ◌∙◌, All,
  All-append, List, [], ◌∷◌, ◌++◌, append_assoc, map,
}
use zmq_proxy.Server.Clock.{Reads, Reads-behind}
use zmq_proxy.Zmq.Silent.{Silent, no_calls, Silent-trans}
use zmq_proxy.Server.Registry.Table.{expiry_of}
use zmq_proxy.Server.Proxy.{Loop}
use zmq_proxy.Server.Spec.{
  Event, worker_says, client_says, tells_client, tells_worker, clock_says, poll_says, Abstract,
}
use zmq_proxy.Server.State.{heartbeat_interval, Worker, Server}

-- The two sockets of a server.
pub record Ends (Socket : Type 0) : Type 0 where
  pub front : Socket
  pub back : Socket

-- The frames of the messages that a trace sends, in order.
unfoldable pub wire : {Socket : Type 0} → Ends Socket → List Event → List (Frame Socket)
wire k [] = []
wire k (tells_client msg ∷ es) = frames k.front msg ++ wire k es
wire k (tells_worker msg ∷ es) = frames k.back msg ++ wire k es
wire k (worker_says msg ∷ es) = wire k es
wire k (client_says msg ∷ es) = wire k es
wire k (clock_says t ∷ es) = wire k es
wire k (poll_says back front ∷ es) = wire k es

module _ (p : Platform) where
  abbrev pub ends : Server p → Ends p.Socket
  ends server = record { front = server.front_sock; back = server.back_sock }

  -- What the loop of `Start` stands for.
  abbrev pub view : Loop p → Abstract
  view l = record {
    table = λ id. expiry_of p id l.server.vec_work;
    beat_at = l.heartbeat_at;
    back_in = l.back_in;
    front_in = l.front_in;
  }

  -- The same, for another server and another time of the next heartbeats.
  abbrev pub seen : Loop p → Server p → ℕ → Abstract
  seen l server at = view (record l { server = server; heartbeat_at = at })

  -- From one world to another the socket delivers `msg`, and there is no other input.
  pub record Arrives (sock : p.Socket) (w : p.World) (msg : List Bytes) (w' : p.World)
      : Type 0 where
    pub before : p.World
    pub silent : Silent p w before
    pub parts : List p.Msg
    pub delivery : Delivers p sock no_flags before parts w'
    pub content : msg ≡ map p.zmq_msg_data parts

  pub arrival :
      {sock : p.Socket} {w w' : p.World} {parts : List p.Msg}
      → Delivers p sock no_flags w parts w'
      → Arrives sock w (map p.zmq_msg_data parts) w'
  arrival {w} {parts} d = record {
    before = w;
    silent = no_calls;
    parts = parts;
    delivery = d;
    content = refl;
  }

  -- The sockets that a poll is asked of, if it says this of the front socket.
  abbrev pub asked : Ends p.Socket → Option Bool → List p.Socket
  asked k none = k.back ∷ []
  asked k (some front) = k.back ∷ k.front ∷ []

  -- A poll of these sockets sets just these ZMQ_POLLIN bits.
  abbrev pub IsSaid : (ℕ → Bool) → Bool → Option Bool → Type 0
  IsSaid pollin back none = pollin 0 ≡ back
  IsSaid pollin back (some front) = (pollin 0 ≡ back) × (pollin 1 ≡ front)

  -- From one world to another the sockets are polled once, and there is no other input.
  pub record Polls (k : Ends p.Socket) (w : p.World) (back : Bool) (front : Option Bool)
      (w' : p.World) : Type 0 where
    pub asked_at : p.World
    pub before : Silent p w asked_at
    pub said : IsSaid (p.zmq_poll (asked k front) heartbeat_interval asked_at).0.pollin back front
    pub after : Silent p (p.zmq_poll (asked k front) heartbeat_interval asked_at).1 w'

  -- From `s` to `t` just the events of the trace happen, in its order: a message is received from a
  -- socket, the clock is read, the sockets are polled, or a message is sent, with an outcome for its
  -- frames; no other input is taken in and nothing else is sent.
  pub data Traced (outcome : Outcome p) (k : Ends p.Socket)
      : Io p → Io p → List Event → Type 0 where
    quiet : {s t : Io p} → Silent p s.world t.world → t.sent ≡ s.sent → Traced outcome k s t []
    hears_worker :
        {s v t : Io p} {es : List Event} {msg : List Bytes}
        → Arrives k.back s.world msg v.world
        → v.sent ≡ s.sent
        → Traced outcome k v t es
        → Traced outcome k s t (worker_says msg ∷ es)
    hears_client :
        {s v t : Io p} {es : List Event} {msg : List Bytes}
        → Arrives k.front s.world msg v.world
        → v.sent ≡ s.sent
        → Traced outcome k v t es
        → Traced outcome k s t (client_says msg ∷ es)
    reads_clock :
        {s v t : Io p} {es : List Event} {now : ℕ}
        → Reads p s.world now v.world
        → v.sent ≡ s.sent
        → Traced outcome k v t es
        → Traced outcome k s t (clock_says now ∷ es)
    asks_poll :
        {s v t : Io p} {es : List Event} {back : Bool} {front : Option Bool}
        → Polls k s.world back front v.world
        → v.sent ≡ s.sent
        → Traced outcome k v t es
        → Traced outcome k s t (poll_says back front ∷ es)
    answers_client :
        {s v t : Io p} {es : List Event} {msg : List Bytes}
        → Silent p s.world v.world
        → Grows p outcome k.front msg s.sent v
        → Traced outcome k v t es
        → Traced outcome k s t (tells_client msg ∷ es)
    writes_worker :
        {s v t : Io p} {es : List Event} {msg : List Bytes}
        → Silent p s.world v.world
        → Grows p outcome k.back msg s.sent v
        → Traced outcome k v t es
        → Traced outcome k s t (tells_worker msg ∷ es)

  Arrives-behind :
      {sock : p.Socket} {u w w' : p.World} {msg : List Bytes}
      → Silent p u w
      → Arrives sock w msg w'
      → Arrives sock u msg w'
  Arrives-behind silent a = record {
    before = a.before;
    silent = Silent-trans silent a.silent;
    parts = a.parts;
    delivery = a.delivery;
    content = a.content;
  }

  Polls-behind :
      {k : Ends p.Socket} {u w w' : p.World} {back : Bool} {front : Option Bool}
      → Silent p u w
      → Polls k w back front w'
      → Polls k u back front w'
  Polls-behind silent polled = record {
    asked_at = polled.asked_at;
    before = Silent-trans silent polled.before;
    said = polled.said;
    after = polled.after;
  }

  -- A trace, behind silent calls.
  pub Traced-behind :
      {outcome : Outcome p} {k : Ends p.Socket} {es : List Event} {s t u : Io p}
      → Silent p s.world t.world
      → t.sent ≡ s.sent
      → Traced outcome k t u es
      → Traced outcome k s u es
  Traced-behind silent kept (quiet h e) = quiet (Silent-trans silent h) (e ∙ kept)
  Traced-behind silent kept (hears_worker a e h) =
      hears_worker (Arrives-behind silent a) (e ∙ kept) h
  Traced-behind silent kept (hears_client a e h) =
      hears_client (Arrives-behind silent a) (e ∙ kept) h
  Traced-behind silent kept (reads_clock a e h) = reads_clock (Reads-behind p silent a) (e ∙ kept) h
  Traced-behind silent kept (asks_poll a e h) = asks_poll (Polls-behind silent a) (e ∙ kept) h
  Traced-behind {outcome} {k} silent kept (answers_client a e h) =
      answers_client (Silent-trans silent a) (Grows-at p outcome k.front refl kept e) h
  Traced-behind {outcome} {k} silent kept (writes_worker a e h) =
      writes_worker (Silent-trans silent a) (Grows-at p outcome k.back refl kept e) h

  pub Traced-append :
      {outcome : Outcome p} {k : Ends p.Socket} {xs ys : List Event} {s t u : Io p}
      → Traced outcome k s t xs
      → Traced outcome k t u ys
      → Traced outcome k s u (xs ++ ys)
  Traced-append (quiet silent kept) b = Traced-behind silent kept b
  Traced-append (hears_worker a e h) b = hears_worker a e (Traced-append h b)
  Traced-append (hears_client a e h) b = hears_client a e (Traced-append h b)
  Traced-append (reads_clock a e h) b = reads_clock a e (Traced-append h b)
  Traced-append (asks_poll a e h) b = asks_poll a e (Traced-append h b)
  Traced-append (answers_client a e h) b = answers_client a e (Traced-append h b)
  Traced-append (writes_worker a e h) b = writes_worker a e (Traced-append h b)

  -- Where whole messages are accepted, what is sent is just the frames of the trace.
  pub Traced-wire :
      {k : Ends p.Socket} {es : List Event} {s t : Io p}
      → Traced (Whole p) k s t es
      → t.sent ≡ s.sent ++ wire k es
  unfolding wire
  Traced-wire {s} (quiet _ kept) = kept ∙ sym (append-nil s.sent)
  Traced-wire {k} (hears_worker {es} _ e h) = Traced-wire h ∙ ap (λ l. l ++ wire k es) e
  Traced-wire {k} (hears_client {es} _ e h) = Traced-wire h ∙ ap (λ l. l ++ wire k es) e
  Traced-wire {k} (reads_clock {es} _ e h) = Traced-wire h ∙ ap (λ l. l ++ wire k es) e
  Traced-wire {k} (asks_poll {es} _ e h) = Traced-wire h ∙ ap (λ l. l ++ wire k es) e
  Traced-wire {k} {s} (answers_client {v} {es} {msg} _ grown h) =
      Traced-wire h
      ∙ ap (λ l. l ++ wire k es) (Grows-Whole p k.front msg s.sent v grown)
      ∙ append_assoc s.sent _ _
  Traced-wire {k} {s} (writes_worker {v} {es} {msg} _ grown h) =
      Traced-wire h
      ∙ ap (λ l. l ++ wire k es) (Grows-Whole p k.back msg s.sent v grown)
      ∙ append_assoc s.sent _ _
