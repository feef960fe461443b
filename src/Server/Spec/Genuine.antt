-- ===== src/Server/Spec/Genuine.antt =====
-- Server/Spec: where the messages to clients come from.
use zmq_proxy.Prelude.{ℕ, ◌≡◌, refl, Option, none, some, List, [], ◌∷◌, ◌++◌, map, Bytes}
use zmq_proxy.Server.Proxy.{no_worker_text}
use zmq_proxy.Server.Spec.Invariant.{Invariant}
use zmq_proxy.Server.Spec.{
  Poll, polls_both, polls_back, poll_says, Event, worker_says, client_says, tells_client,
  tells_worker, clock_says, Abstract, beat, Back, registers, drops, relays, Front, dispatches,
  refuses, Beat, early, beats, Expire, checks,
}

-- The event before is the message of a worker, behind its identity, or a request that is refused.
abbrev pub IsCause : List Bytes → Option Event → Type 0
IsCause msg (some (worker_says (id ∷ reply))) = msg ≡ reply
IsCause msg (some (client_says (client ∷ rest))) = msg ≡ client ∷ [] ∷ no_worker_text ∷ []
IsCause msg _ = ⊥

-- In front of every message to a client stands its cause; `last` is the event before the trace.
unfoldable pub Genuine : Option Event → List Event → Type 0
Genuine last [] = Unit
Genuine last (tells_client msg ∷ es) = IsCause msg last × Genuine (some (tells_client msg)) es
Genuine last (client_says msg ∷ es) = Genuine (some (client_says msg)) es
Genuine last (worker_says msg ∷ es) = Genuine (some (worker_says msg)) es
Genuine last (tells_worker msg ∷ es) = Genuine (some (tells_worker msg)) es
Genuine last (clock_says t ∷ es) = Genuine (some (clock_says t)) es
Genuine last (poll_says back front ∷ es) = Genuine (some (poll_says back front)) es

-- A trace that needs no event before it goes behind any other.
Genuine-behind : (last : Option Event) (es : List Event) → Genuine none es → Genuine last es
unfolding Genuine
Genuine-behind last [] g = tt
Genuine-behind last (tells_client msg ∷ es) (h, g) = absurd h
Genuine-behind last (client_says msg ∷ es) g = g
Genuine-behind last (worker_says msg ∷ es) g = g
Genuine-behind last (tells_worker msg ∷ es) g = g
Genuine-behind last (clock_says t ∷ es) g = g
Genuine-behind last (poll_says back front ∷ es) g = g

Genuine-append :
    (last : Option Event) (xs ys : List Event)
    → Genuine last xs
    → Genuine none ys
    → Genuine last (xs ++ ys)
unfolding Genuine
Genuine-append last [] ys a b = Genuine-behind last ys b
Genuine-append last (tells_client msg ∷ xs) ys (h, a) b =
    (h, Genuine-append (some (tells_client msg)) xs ys a b)
Genuine-append last (client_says msg ∷ xs) ys a b =
    Genuine-append (some (client_says msg)) xs ys a b
Genuine-append last (worker_says msg ∷ xs) ys a b =
    Genuine-append (some (worker_says msg)) xs ys a b
Genuine-append last (tells_worker msg ∷ xs) ys a b =
    Genuine-append (some (tells_worker msg)) xs ys a b
Genuine-append last (clock_says t ∷ xs) ys a b = Genuine-append (some (clock_says t)) xs ys a b
Genuine-append last (poll_says back front ∷ xs) ys a b =
    Genuine-append (some (poll_says back front)) xs ys a b

beats-Genuine :
    (last : Option Event) (ids : List Bytes) (t : ℕ)
    → Genuine last (map beat ids ++ clock_says t ∷ [])
unfolding Genuine
beats-Genuine last [] t = tt
beats-Genuine last (id ∷ ids) t = beats-Genuine (some (beat id)) ids t

Poll-Genuine : {a b : Abstract} {es : List Event} → Poll a es b → Genuine none es
unfolding Genuine
Poll-Genuine (polls_both id x back front here e f) = rw e tt
Poll-Genuine (polls_back back alone e f) = rw e tt

Back-Genuine : {a b : Abstract} {es : List Event} → Back a es b → Genuine none es
unfolding Genuine
Back-Genuine (registers id t e f) = rw e tt
Back-Genuine (drops id data_ n e f) = rw e tt
Back-Genuine (relays id msg n e f) = rw e (refl, tt)

Front-Genuine : {a : Abstract} {es : List Event} → Front a es → Genuine none es
unfolding Genuine
Front-Genuine (dispatches id e request here f) = rw f tt
Front-Genuine (refuses client rest out f) = rw f (refl, tt)

Beat-Genuine : {a b : Abstract} {es : List Event} → Beat a es b → Genuine none es
unfolding Genuine
Beat-Genuine (early t h e f) = rw e tt
Beat-Genuine (beats t t' ids h keys e f) = rw e (beats-Genuine (some (clock_says t)) ids t')

Expire-Genuine : {a b : Abstract} {es : List Event} → Expire a es b → Genuine none es
unfolding Genuine
Expire-Genuine (checks t e f) = rw e tt

pub Genuine-Invariant : Invariant (λ past a. Genuine none past)
Genuine-Invariant = record {
  poll = λ past {es} k step. Genuine-append none past es k (Poll-Genuine step);
  back = λ past {es} k step. Genuine-append none past es k (Back-Genuine step);
  front = λ past {es} k step. Genuine-append none past es k (Front-Genuine step);
  beat = λ past {es} k step. Genuine-append none past es k (Beat-Genuine step);
  expire = λ past {es} k step. Genuine-append none past es k (Expire-Genuine step);
}
