-- ===== src/Server/Spec/Attended.antt =====
-- Server/Spec: a message is read just from the sockets that the poll says are readable.
use zmq_proxy.Prelude.{
  ◌||◌, ℕ, zero, suc, ◌≡◌, refl, ◌∙◌, subst, Bool, true, false, Option, none, some, List, [], ◌∷◌,
  ◌++◌, map, Bytes,
}
use zmq_proxy.Server.Spec.{
  Event, worker_says, client_says, tells_client, tells_worker, clock_says, poll_says, Abstract,
  beat, polls_both, polls_back, Back, registers, drops, relays, BackTurn, dispatches, refuses,
  FrontTurn, Beat, early, beats, Expire, checks, Turn, in_turn, Round, polled, Rounds,
}

-- Whether a message of a worker is read before the next poll.
unfoldable pub hears_worker : List Event → Bool
hears_worker (worker_says msg ∷ es) = true
hears_worker [] = false
hears_worker (poll_says back front ∷ es) = false
hears_worker (client_says msg ∷ es) = hears_worker es
hears_worker (tells_client msg ∷ es) = hears_worker es
hears_worker (tells_worker msg ∷ es) = hears_worker es
hears_worker (clock_says t ∷ es) = hears_worker es

-- The same of a client.
unfoldable pub hears_client : List Event → Bool
hears_client (client_says msg ∷ es) = true
hears_client [] = false
hears_client (poll_says back front ∷ es) = false
hears_client (worker_says msg ∷ es) = hears_client es
hears_client (tells_client msg ∷ es) = hears_client es
hears_client (tells_worker msg ∷ es) = hears_client es
hears_client (clock_says t ∷ es) = hears_client es

-- What is taken of the front socket behind a poll: what it says now, or what was taken before.
abbrev pub taken : Bool → Option Bool → Bool
taken before none = before
taken before (some front) = front

-- Behind each poll a message of a worker is read before the next one just if the back socket is
-- readable, and a message of a client just if the front socket is taken to be; `front` is what was
-- taken of that one before the trace.
unfoldable pub Attended : Bool → List Event → Type 0
Attended front [] = Unit
Attended front (poll_says back said ∷ es) =
    (hears_worker es ≡ back) × (hears_client es ≡ taken front said) × Attended (taken front said) es
Attended front (worker_says msg ∷ es) = Attended front es
Attended front (client_says msg ∷ es) = Attended front es
Attended front (tells_client msg ∷ es) = Attended front es
Attended front (tells_worker msg ∷ es) = Attended front es
Attended front (clock_says t ∷ es) = Attended front es

-- A piece of a trace without a poll.
unfoldable Calm : List Event → Type 0
Calm [] = Unit
Calm (poll_says back front ∷ es) = ⊥
Calm (worker_says msg ∷ es) = Calm es
Calm (client_says msg ∷ es) = Calm es
Calm (tells_client msg ∷ es) = Calm es
Calm (tells_worker msg ∷ es) = Calm es
Calm (clock_says t ∷ es) = Calm es

-- A piece without a poll, in which messages of workers and of clients are read as the bits say.
abbrev Hears : Bool → Bool → List Event → Type 0
Hears worker client es = Calm es × (hears_worker es ≡ worker) × (hears_client es ≡ client)

-- What stands in front of a trace.
Calm-front :
    (xs ys : List Event)
    → Calm xs
    → (hears_worker (xs ++ ys) ≡ hears_worker xs || hears_worker ys)
      × (hears_client (xs ++ ys) ≡ hears_client xs || hears_client ys)
      × (Calm ys → Calm (xs ++ ys))
      × ((front : Bool) → Attended front ys → Attended front (xs ++ ys))
unfolding Calm hears_worker hears_client Attended
Calm-front [] ys c = (refl, refl, λ d. d, λ front a. a)
Calm-front (poll_says back front ∷ xs) ys c = absurd c
Calm-front (worker_says msg ∷ xs) ys c = let (w, h, r, q) = Calm-front xs ys c in (refl, h, r, q)
Calm-front (client_says msg ∷ xs) ys c = let (w, h, r, q) = Calm-front xs ys c in (w, refl, r, q)
Calm-front (tells_client msg ∷ xs) ys c = Calm-front xs ys c
Calm-front (tells_worker msg ∷ xs) ys c = Calm-front xs ys c
Calm-front (clock_says t ∷ xs) ys c = Calm-front xs ys c

Hears-append :
    {w c w' c' : Bool} (xs ys : List Event)
    → Hears w c xs
    → Hears w' c' ys
    → Hears (w || w') (c || c') (xs ++ ys)
Hears-append xs ys (calm, hw, hc) (calm', hw', hc') =
    let (fw, fc, both, _) = Calm-front xs ys calm in
    (both calm', rw (fw, hw, hw') refl, rw (fc, hc, hc') refl)

or_false : (b : Bool) → (b || false) ≡ b
or_false true = refl
or_false false = refl

Back-Hears :
    {a b : Abstract} {es : List Event}
    → Back a es b
    → Hears true false es × (b.front_in ≡ a.front_in)
unfolding Calm hears_worker hears_client
Back-Hears (registers id t e f) = rw (e, f) ((tt, refl, refl), refl)
Back-Hears (drops id data_ n e f) = rw (e, f) ((tt, refl, refl), refl)
Back-Hears (relays id msg n e f) = rw (e, f) ((tt, refl, refl), refl)

BackTurn-Hears :
    {a b : Abstract} {es : List Event}
    → BackTurn a es b
    → Hears a.back_in false es × (b.front_in ≡ a.front_in)
unfolding Calm hears_worker hears_client
BackTurn-Hears (BackTurn.takes bit step) = rw bit (Back-Hears step)
BackTurn-Hears (BackTurn.passes bit e f) = rw (bit, e, f) ((tt, refl, refl), refl)

FrontTurn-Hears : {a : Abstract} {es : List Event} → FrontTurn a es → Hears false a.front_in es
unfolding Calm hears_worker hears_client
FrontTurn-Hears (FrontTurn.takes bit (dispatches id e request here f)) =
    rw (bit, f) (tt, refl, refl)
FrontTurn-Hears (FrontTurn.takes bit (refuses client rest out f)) = rw (bit, f) (tt, refl, refl)
FrontTurn-Hears (FrontTurn.passes bit e) = rw (bit, e) (tt, refl, refl)

beats-Hears : (ids : List Bytes) (t : ℕ) → Hears false false (map beat ids ++ clock_says t ∷ [])
unfolding Calm hears_worker hears_client
beats-Hears [] t = (tt, refl, refl)
beats-Hears (id ∷ ids) t = beats-Hears ids t

Beat-Hears :
    {a b : Abstract} {es : List Event}
    → Beat a es b
    → Hears false false es × (b.front_in ≡ a.front_in)
unfolding Calm hears_worker hears_client
Beat-Hears (early t h e f) = rw (e, f) ((tt, refl, refl), refl)
Beat-Hears (beats t t' ids h keys e f) = rw (e, f) (beats-Hears ids t', refl)

Expire-Hears :
    {a b : Abstract} {es : List Event}
    → Expire a es b
    → Hears false false es × (b.front_in ≡ a.front_in)
unfolding Calm hears_worker hears_client
Expire-Hears (checks t e f) = rw (e, f) ((tt, refl, refl), refl)

Turn-Hears :
    {a d : Abstract} {es : List Event}
    → Turn a es d
    → Hears a.back_in a.front_in es × (d.front_in ≡ a.front_in)
Turn-Hears {a} (in_turn {at_back} {at_front} {beats} {expiry} back front beat expire e) =
    let (in_back, kept) = BackTurn-Hears back in
    let in_front = FrontTurn-Hears front in
    let (in_beat, kept') = Beat-Hears beat in
    let (in_expire, kept'') = Expire-Hears expire in
    let (calm, w, c) =
      Hears-append (at_back ++ at_front ++ beats) expiry
        (Hears-append (at_back ++ at_front) beats (Hears-append at_back at_front in_back in_front)
          in_beat)
        in_expire in
    rw e ((calm, w ∙ simp or_false refl, c ∙ simp or_false kept), kept'' ∙ kept' ∙ kept)

-- A round begins with its poll, and what it reads is what the poll says.
Round-Hears :
    {a d : Abstract} {es : List Event}
    → Round a es d
    → (back : Bool) × (said : Option Bool) × (turn : List Event) × (es ≡ poll_says back said ∷ turn)
      × Hears back (taken a.front_in said) turn
      × (d.front_in ≡ taken a.front_in said)
Round-Hears (polled {turn} (polls_both id x back front here e f) rest g) = (
  back,
  some front,
  turn,
  rw (g, e) refl,
  subst (λ (z : Abstract). Hears z.back_in z.front_in turn) f (Turn-Hears rest).0,
  (Turn-Hears rest).1 ∙ rw f refl,
)
Round-Hears (polled {turn} (polls_back back alone e f) rest g) = (
  back,
  none,
  turn,
  rw (g, e) refl,
  subst (λ (z : Abstract). Hears z.back_in z.front_in turn) f (Turn-Hears rest).0,
  (Turn-Hears rest).1 ∙ rw f refl,
)

-- So it is in any number of rounds, and nothing is read before the first poll.
pub Rounds-Attended :
    (n : ℕ) (a d : Abstract) (es : List Event)
    → Rounds n a es d
    → Attended a.front_in es × (hears_worker es ≡ false) × (hears_client es ≡ false)
unfolding Attended hears_worker hears_client
Rounds-Attended zero a d es (e, f) = rw e (tt, refl, refl)
Rounds-Attended (suc n) a d es (b, xs, ys, step, steps, g) =
    let (back, said, turn, e, (calm, w, c), kept) = Round-Hears step in
    let (later, w', c') = Rounds-Attended n b d ys steps in
    let (fw, fc, _, behind) = Calm-front turn ys calm in
    rw (g, e)
      (
        (
          fw ∙ rw (w, w', or_false) refl,
          fc ∙ rw (c, c', or_false) refl,
          behind _ (subst (λ front. Attended front ys) kept later),
        ),
        refl,
        refl,
      )
