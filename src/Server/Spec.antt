-- ===== src/Server/Spec.antt =====
-- What the proxy of src/zmq_server.cc promises, without its lists, iterators, frames and messages: a
-- map from the identities of the workers to their expiry times, and rounds that are traces of events.
pub mod Invariant
pub mod Addressed
pub mod Fresh
pub mod Served
pub mod Dispatched
pub mod Kept
pub mod Genuine
pub mod Attended
use zmq_proxy.Prelude.{
  Bool, true, false, ℕ, zero, suc, ◌+◌, ◌≤◌, ◌<◌, ◌≡◌, ◌≢◌, Option, none, some, is_some, List, [],
  ◌∷◌, ◌++◌, map, Bytes, length, if◌then◌else◌, ltb, str_eq,
}
use zmq_proxy.Server.Proxy.{no_worker_text}
use zmq_proxy.Server.Registry.Identities.{member, Distinct}
use zmq_proxy.Server.State.{heartbeat_interval, heartbeat_key, lifetime}

abbrev pub Table : Type 0
Table = Bytes → Option ℕ

abbrev pub insert : Bytes → ℕ → Table → Table
insert key e table id = if str_eq key id then some e else table id

-- What is left of an entry at time `now`.
abbrev pub unexpired : ℕ → Option ℕ → Option ℕ
unexpired now none = none
unexpired now (some e) = if ltb e now then none else some e

-- What happens at the proxy, in order: messages from the two sides and to them, readings of the
-- clock, and what zmq_poll says: whether the back socket is readable, and the front socket if it is
-- asked of that one. A message is the bytes of its parts; one from or to a worker has the identity in
-- front.
pub data Event : Type 0 where
  worker_says : List Bytes → Event
  client_says : List Bytes → Event
  tells_client : List Bytes → Event
  tells_worker : List Bytes → Event
  clock_says : ℕ → Event
  poll_says : Bool → Option Bool → Event

-- The workers, when heartbeats are due, and whether the two sockets are taken to be readable.
pub record Abstract : Type 0 where
  pub table : Table
  pub beat_at : ℕ
  pub back_in : Bool
  pub front_in : Bool

-- No byte string stands twice in `ids`, and they are the keys of the map.
abbrev pub Enumerates : List Bytes → Table → Type 0
Enumerates ids table = Distinct ids × ((id : Bytes) → member id ids ≡ is_some (table id))

abbrev pub beat : Bytes → Event
beat id = tells_worker (id ∷ heartbeat_key ∷ [])

-- The poll asks of the front socket if there is a worker; else what it said of that one before stays.
pub data Poll (a : Abstract) (es : List Event) (b : Abstract) : Type 0 where
  polls_both :
      (id : Bytes) (e : ℕ) (back front : Bool)
      → a.table id ≡ some e
      → es ≡ poll_says back (some front) ∷ []
      → b ≡ record a { back_in = back; front_in = front }
      → Poll a es b
  polls_back :
      (back : Bool)
      → ((id : Bytes) → a.table id ≡ none)
      → es ≡ poll_says back none ∷ []
      → b ≡ record a { back_in = back }
      → Poll a es b

-- What a worker's message does.
pub data Back (a : Abstract) (es : List Event) (b : Abstract) : Type 0 where
  registers :
      (id : Bytes) (t : ℕ)
      → es ≡ worker_says (id ∷ heartbeat_key ∷ []) ∷ clock_says t ∷ []
      → b ≡ record a { table = insert id (t + lifetime) a.table }
      → Back a es b
  drops :
      (id data_ : Bytes)
      → data_ ≢ heartbeat_key
      → es ≡ worker_says (id ∷ data_ ∷ []) ∷ []
      → b ≡ a
      → Back a es b
  relays :
      (id : Bytes) (msg : List Bytes)
      → length msg ≢ 1
      → es ≡ worker_says (id ∷ msg) ∷ tells_client msg ∷ []
      → b ≡ a
      → Back a es b

-- What a client's message does.
pub data Front (a : Abstract) (es : List Event) : Type 0 where
  dispatches :
      (id : Bytes) (e : ℕ) (request : List Bytes)
      → a.table id ≡ some e
      → es ≡ client_says request ∷ tells_worker (id ∷ request) ∷ []
      → Front a es
  refuses :
      (client : Bytes) (rest : List Bytes)
      → ((id : Bytes) → a.table id ≡ none)
      → es ≡ client_says (client ∷ rest) ∷ tells_client (client ∷ [] ∷ no_worker_text ∷ []) ∷ []
      → Front a es

-- Heartbeats, to every worker, when they are due.
pub data Beat (a : Abstract) (es : List Event) (b : Abstract) : Type 0 where
  early : (t : ℕ) → t ≤ a.beat_at → es ≡ clock_says t ∷ [] → b ≡ a → Beat a es b
  beats :
      (t t' : ℕ) (ids : List Bytes)
      → a.beat_at < t
      → Enumerates ids a.table
      → es ≡ clock_says t ∷ map beat ids ++ clock_says t' ∷ []
      → b ≡ record a { beat_at = t' + heartbeat_interval }
      → Beat a es b

-- The expired workers go.
pub data Expire (a : Abstract) (es : List Event) (b : Abstract) : Type 0 where
  checks :
      (t : ℕ)
      → es ≡ clock_says t ∷ []
      → b ≡ record a { table = λ id. unexpired t (a.table id) }
      → Expire a es b

-- A message of a worker is read just if the back socket is taken to be readable.
pub data BackTurn (a : Abstract) (es : List Event) (b : Abstract) : Type 0 where
  takes : a.back_in ≡ true → Back a es b → BackTurn a es b
  passes : a.back_in ≡ false → es ≡ [] → b ≡ a → BackTurn a es b

-- The same for a client and the front socket.
pub data FrontTurn (a : Abstract) (es : List Event) : Type 0 where
  takes : a.front_in ≡ true → Front a es → FrontTurn a es
  passes : a.front_in ≡ false → es ≡ [] → FrontTurn a es

-- A round behind its poll.
pub data Turn (a : Abstract) (es : List Event) (d : Abstract) : Type 0 where
  in_turn :
      {b c : Abstract} {at_back at_front beats expiry : List Event}
      → BackTurn a at_back b
      → FrontTurn b at_front
      → Beat b beats c
      → Expire c expiry d
      → es ≡ at_back ++ at_front ++ beats ++ expiry
      → Turn a es d

pub data Round (a : Abstract) (es : List Event) (d : Abstract) : Type 0 where
  polled :
      {b : Abstract} {poll turn : List Event}
      → Poll a poll b
      → Turn b turn d
      → es ≡ poll ++ turn
      → Round a es d

-- So many rounds.
abbrev pub Rounds : ℕ → Abstract → List Event → Abstract → Type 0
Rounds zero a es c = (es ≡ []) × (c ≡ a)
Rounds (suc n) a es c =
    (b : Abstract) × (first : List Event) × (later : List Event) × Round a first b
    × Rounds n b later c
    × (es ≡ first ++ later)
