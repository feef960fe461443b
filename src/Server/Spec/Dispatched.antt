-- ===== src/Server/Spec/Dispatched.antt =====
-- Server/Spec: while there is a worker no client is refused.
use zmq_proxy.Prelude.{ℕ, ◌≡◌, refl, some, List, [], ◌∷◌, ◌++◌, map, Bytes, str_eq_refl}
use zmq_proxy.Server.Spec.{
  polls_both, polls_back, poll_says, Turn, BackTurn, FrontTurn, polled, Event, worker_says,
  client_says, tells_client, tells_worker, clock_says, Table, Abstract, beat, insert, Back,
  registers, drops, relays, Front, dispatches, refuses, Beat, early, beats, checks, Round, in_turn,
}

-- There is a worker.
abbrev pub IsManned : Table → Type 0
IsManned table = (id : Bytes) × (e : ℕ) × (table id ≡ some e)

-- The event gives the request to a worker, unchanged.
abbrev pub IsHandOver : List Bytes → Event → Type 0
IsHandOver request (tells_worker (id ∷ msg)) = msg ≡ request
IsHandOver request _ = ⊥

abbrev pub IsHandedOverBy : List Bytes → List Event → Type 0
IsHandedOverBy request [] = ⊥
IsHandedOverBy request (e ∷ es) = IsHandOver request e

-- Behind every message of a client the next event gives it to a worker.
unfoldable pub Dispatched : List Event → Type 0
Dispatched [] = Unit
Dispatched (client_says request ∷ es) = IsHandedOverBy request es × Dispatched es
Dispatched (worker_says msg ∷ es) = Dispatched es
Dispatched (tells_client msg ∷ es) = Dispatched es
Dispatched (tells_worker msg ∷ es) = Dispatched es
Dispatched (clock_says t ∷ es) = Dispatched es
Dispatched (poll_says back front ∷ es) = Dispatched es

Dispatched-append : (xs ys : List Event) → Dispatched xs → Dispatched ys → Dispatched (xs ++ ys)
unfolding Dispatched
Dispatched-append [] ys a b = b
Dispatched-append (client_says request ∷ []) ys (h, a) b = absurd h
Dispatched-append (client_says request ∷ e ∷ xs) ys (h, a) b =
    (h, Dispatched-append (e ∷ xs) ys a b)
Dispatched-append (worker_says msg ∷ xs) ys a b = Dispatched-append xs ys a b
Dispatched-append (tells_client msg ∷ xs) ys a b = Dispatched-append xs ys a b
Dispatched-append (tells_worker msg ∷ xs) ys a b = Dispatched-append xs ys a b
Dispatched-append (clock_says t ∷ xs) ys a b = Dispatched-append xs ys a b
Dispatched-append (poll_says back front ∷ xs) ys a b = Dispatched-append xs ys a b

beats-Dispatched : (ids : List Bytes) (t : ℕ) → Dispatched (map beat ids ++ clock_says t ∷ [])
unfolding Dispatched
beats-Dispatched [] t = tt
beats-Dispatched (id ∷ ids) t = beats-Dispatched ids t

-- A new entry leaves no fewer keys.
insert-IsManned : (key : Bytes) (e : ℕ) (table : Table) → IsManned (insert key e table)
insert-IsManned key e table = (key, e, rw (str_eq_refl key) refl)

Back-Dispatched :
    {a b : Abstract} {es : List Event}
    → IsManned a.table
    → Back a es b
    → IsManned b.table × Dispatched es
unfolding Dispatched
Back-Dispatched {a} manned (registers id t e f) = rw (e, f) (insert-IsManned id _ a.table, tt)
Back-Dispatched manned (drops id data_ n e f) = rw (e, f) (manned, tt)
Back-Dispatched manned (relays id msg n e f) = rw (e, f) (manned, tt)

Front-Dispatched : {a : Abstract} {es : List Event} → IsManned a.table → Front a es → Dispatched es
unfolding Dispatched
Front-Dispatched manned (dispatches id e request here f) = rw f (refl, tt)
Front-Dispatched (id, e, at_id) (refuses client rest out f) = cc (out id)

Beat-Dispatched : {a b : Abstract} {es : List Event} → Beat a es b → Dispatched es
unfolding Dispatched
Beat-Dispatched (early t h e f) = rw e tt
Beat-Dispatched (beats t t' ids h keys e f) = rw e (beats-Dispatched ids t')

BackTurn-Dispatched :
    {a b : Abstract} {es : List Event}
    → IsManned a.table
    → BackTurn a es b
    → IsManned b.table × Dispatched es
unfolding Dispatched
BackTurn-Dispatched manned (BackTurn.takes _ step) = Back-Dispatched manned step
BackTurn-Dispatched manned (BackTurn.passes _ e f) = rw (e, f) (manned, tt)

FrontTurn-Dispatched :
    {a : Abstract} {es : List Event} → IsManned a.table → FrontTurn a es → Dispatched es
unfolding Dispatched
FrontTurn-Dispatched manned (FrontTurn.takes _ step) = Front-Dispatched manned step
FrontTurn-Dispatched manned (FrontTurn.passes _ e) = rw e tt

Turn-Dispatched :
    (a d : Abstract) (es : List Event) → IsManned a.table → Turn a es d → Dispatched es
unfolding Dispatched
Turn-Dispatched a d es manned
      (in_turn {at_back} {at_front} {beats} back front beat (checks t e f) g) =
    let (still, first) = BackTurn-Dispatched manned back in
    rw (g, e)
      (Dispatched-append (at_back ++ at_front ++ beats) (clock_says t ∷ [])
        (Dispatched-append (at_back ++ at_front) beats
          (Dispatched-append at_back at_front first (FrontTurn-Dispatched still front))
          (Beat-Dispatched beat))
        tt)

-- In a round that begins with a worker every request goes to a worker.
pub Round-Dispatched :
    (a d : Abstract) (es : List Event) → IsManned a.table → Round a es d → Dispatched es
unfolding Dispatched
Round-Dispatched a d es manned
      (polled {b} {poll} {turn} (polls_both id x back front here e f) rest g) =
    rw (g, e) (Turn-Dispatched b d turn (rw f manned) rest)
Round-Dispatched a d es manned (polled {b} {poll} {turn} (polls_back back alone e f) rest g) =
    rw (g, e) (Turn-Dispatched b d turn (rw f manned) rest)
