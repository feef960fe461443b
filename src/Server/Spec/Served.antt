-- ===== src/Server/Spec/Served.antt =====
-- Server/Spec: every request of a client is answered at once.
use zmq_proxy.Prelude.{ℕ, ◌≡◌, refl, List, [], ◌∷◌, ◌++◌, map, Bytes}
use zmq_proxy.Server.Proxy.{no_worker_text}
use zmq_proxy.Server.Spec.Invariant.{Invariant}
use zmq_proxy.Server.Spec.{
  Poll, polls_both, polls_back, poll_says, Event, worker_says, client_says, tells_client,
  tells_worker, clock_says, Abstract, beat, Back, registers, drops, relays, Front, dispatches,
  refuses, Beat, early, beats, Expire, checks,
}

-- The event gives the request to a worker, unchanged, or refuses it.
abbrev pub IsAnswer : List Bytes → Event → Type 0
IsAnswer request (tells_worker (id ∷ msg)) = msg ≡ request
IsAnswer (client ∷ _) (tells_client msg) = msg ≡ client ∷ [] ∷ no_worker_text ∷ []
IsAnswer _ _ = ⊥

abbrev pub IsAnsweredBy : List Bytes → List Event → Type 0
IsAnsweredBy request [] = ⊥
IsAnsweredBy request (e ∷ es) = IsAnswer request e

-- Behind every message of a client the next event is its answer.
unfoldable pub Served : List Event → Type 0
Served [] = Unit
Served (client_says request ∷ es) = IsAnsweredBy request es × Served es
Served (worker_says msg ∷ es) = Served es
Served (tells_client msg ∷ es) = Served es
Served (tells_worker msg ∷ es) = Served es
Served (clock_says t ∷ es) = Served es
Served (poll_says back front ∷ es) = Served es

Served-append : (xs ys : List Event) → Served xs → Served ys → Served (xs ++ ys)
unfolding Served
Served-append [] ys a b = b
Served-append (client_says request ∷ []) ys (h, a) b = absurd h
Served-append (client_says request ∷ e ∷ xs) ys (h, a) b = (h, Served-append (e ∷ xs) ys a b)
Served-append (worker_says msg ∷ xs) ys a b = Served-append xs ys a b
Served-append (tells_client msg ∷ xs) ys a b = Served-append xs ys a b
Served-append (tells_worker msg ∷ xs) ys a b = Served-append xs ys a b
Served-append (clock_says t ∷ xs) ys a b = Served-append xs ys a b
Served-append (poll_says back front ∷ xs) ys a b = Served-append xs ys a b

beats-Served : (ids : List Bytes) (t : ℕ) → Served (map beat ids ++ clock_says t ∷ [])
unfolding Served
beats-Served [] t = tt
beats-Served (id ∷ ids) t = beats-Served ids t

Poll-Served : {a b : Abstract} {es : List Event} → Poll a es b → Served es
unfolding Served
Poll-Served (polls_both id x back front here e f) = rw e tt
Poll-Served (polls_back back alone e f) = rw e tt

Back-Served : {a b : Abstract} {es : List Event} → Back a es b → Served es
unfolding Served
Back-Served (registers id t e f) = rw e tt
Back-Served (drops id data_ n e f) = rw e tt
Back-Served (relays id msg n e f) = rw e tt

Front-Served : {a : Abstract} {es : List Event} → Front a es → Served es
unfolding Served
Front-Served (dispatches id e request here f) = rw f (refl, tt)
Front-Served (refuses client rest out f) = rw f (refl, tt)

Beat-Served : {a b : Abstract} {es : List Event} → Beat a es b → Served es
unfolding Served
Beat-Served (early t h e f) = rw e tt
Beat-Served (beats t t' ids h keys e f) = rw e (beats-Served ids t')

Expire-Served : {a b : Abstract} {es : List Event} → Expire a es b → Served es
unfolding Served
Expire-Served (checks t e f) = rw e tt

pub Served-Invariant : Invariant (λ past a. Served past)
Served-Invariant = record {
  poll = λ past {es} k step. Served-append past es k (Poll-Served step);
  back = λ past {es} k step. Served-append past es k (Back-Served step);
  front = λ past {es} k step. Served-append past es k (Front-Served step);
  beat = λ past {es} k step. Served-append past es k (Beat-Served step);
  expire = λ past {es} k step. Served-append past es k (Expire-Served step);
}
