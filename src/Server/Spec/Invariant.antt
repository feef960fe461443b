-- ===== src/Server/Spec/Invariant.antt =====
-- Server/Spec: what every step keeps holds after any number of rounds.
use zmq_proxy.Prelude.{ℕ, zero, suc, ◌≡◌, sym, ap, subst, ◌∙◌, List, ◌++◌, append_assoc, append-nil}
use zmq_proxy.Server.Spec.{
  Event, Abstract, Back, Front, Beat, Expire, Round, Rounds, Poll, BackTurn, FrontTurn, Turn,
  in_turn, polled,
}

-- `I` holds of what has happened so far and of the state, and every step keeps it.
pub record Invariant (I : List Event → Abstract → Type 0) : Type 0 where
  pub poll :
      (past : List Event) {a b : Abstract} {es : List Event}
      → I past a
      → Poll a es b
      → I (past ++ es) b
  pub back :
      (past : List Event) {a b : Abstract} {es : List Event}
      → I past a
      → Back a es b
      → I (past ++ es) b
  pub front :
      (past : List Event) {a : Abstract} {es : List Event}
      → I past a
      → Front a es
      → I (past ++ es) a
  pub beat :
      (past : List Event) {a b : Abstract} {es : List Event}
      → I past a
      → Beat a es b
      → I (past ++ es) b
  pub expire :
      (past : List Event) {a b : Abstract} {es : List Event}
      → I past a
      → Expire a es b
      → I (past ++ es) b

module _ {I : List Event → Abstract → Type 0} (inv : Invariant I) where
  BackTurn-keeps :
      (past : List Event) (a b : Abstract) (es : List Event)
      → I past a
      → BackTurn a es b
      → I (past ++ es) b
  BackTurn-keeps past a b es i (BackTurn.takes _ step) = inv.back past i step
  BackTurn-keeps past a b es i (BackTurn.passes _ e f) = rw (e, f, append-nil) i

  FrontTurn-keeps :
      (past : List Event) (a : Abstract) (es : List Event)
      → I past a
      → FrontTurn a es
      → I (past ++ es) a
  FrontTurn-keeps past a es i (FrontTurn.takes _ step) = inv.front past i step
  FrontTurn-keeps past a es i (FrontTurn.passes _ e) = rw (e, append-nil) i

  -- The invariant before `CheckWorker`'s step, which is the last of a round.
  Turn-but_last :
      (past : List Event) (a d : Abstract) (es : List Event)
      → I past a
      → Turn a es d
      → (c : Abstract) × (xs : List Event) × (ys : List Event) × I (past ++ xs) c
        × Expire c ys d
        × (es ≡ xs ++ ys)
  Turn-but_last past a d es i
        (in_turn {b} {c} {at_back} {at_front} {beats} {expiry} back front beat expire e) =
      (
        c,
        at_back ++ at_front ++ beats,
        expiry,
        subst (λ l. I l c) (append_assoc past (at_back ++ at_front) beats)
            (inv.beat _
              (subst (λ l. I l b) (append_assoc past at_back at_front)
                (FrontTurn-keeps _ b at_front (BackTurn-keeps past a b at_back i back) front))
              beat),
        expire,
        e,
      )

  pub Round-but_last :
      (past : List Event) (a d : Abstract) (es : List Event)
      → I past a
      → Round a es d
      → (c : Abstract) × (xs : List Event) × (ys : List Event) × I (past ++ xs) c
        × Expire c ys d
        × (es ≡ xs ++ ys)
  Round-but_last past a d es i (polled {b} {poll} {turn} step rest e) =
      let (c, xs, ys, before, expire, f) =
        Turn-but_last (past ++ poll) b d turn (inv.poll past i step) rest in
      (
        c,
        poll ++ xs,
        ys,
        subst (λ l. I l c) (append_assoc past poll xs) before,
        expire,
        e ∙ ap (λ l. poll ++ l) f ∙ sym (append_assoc poll xs ys),
      )

  pub Round-keeps :
      (past : List Event) (a d : Abstract) (es : List Event)
      → I past a
      → Round a es d
      → I (past ++ es) d
  Round-keeps past a d es i r =
      let (c, xs, ys, before, expire, e) = Round-but_last past a d es i r in
      subst (λ l. I (past ++ l) d) (sym e)
        (subst (λ l. I l d) (append_assoc past xs ys) (inv.expire _ before expire))

  pub Rounds-keeps :
      (n : ℕ) (past : List Event) (a d : Abstract) (es : List Event)
      → I past a
      → Rounds n a es d
      → I (past ++ es) d
  Rounds-keeps zero past a d es i (e, f) = rw (e, f, append-nil) i
  Rounds-keeps (suc n) past a d es i (b, xs, ys, step, steps, e) =
      subst (λ l. I (past ++ l) d) (sym e)
        (subst (λ l. I l d) (append_assoc past xs ys)
          (Rounds-keeps n (past ++ xs) b d ys (Round-keeps past a b xs i step) steps))

  -- The last event of one round or more is the clock reading of `CheckWorker`.
  pub Rounds-but_last :
      (n : ℕ) (past : List Event) (a d : Abstract) (es : List Event)
      → I past a
      → Rounds (suc n) a es d
      → (c : Abstract) × (xs : List Event) × (ys : List Event) × I (past ++ xs) c
        × Expire c ys d
        × (es ≡ xs ++ ys)
  Rounds-but_last zero past a d es i (b, xs, ys, step, (e, f), g) =
      let (c, xs', ys', before, expire, h) = Round-but_last past a b xs i step in
      (c, xs', ys', before, subst (Expire c ys') (sym f) expire, g ∙ rw (e, append-nil) h)
  Rounds-but_last (suc n) past a d es i (b, xs, ys, step, steps, g) =
      let (c, xs', ys', before, expire, h) =
        Rounds-but_last n (past ++ xs) b d ys (Round-keeps past a b xs i step) steps in
      (
        c,
        xs ++ xs',
        ys',
        subst (λ l. I l c) (append_assoc past xs xs') before,
        expire,
        g ∙ ap (λ l. xs ++ l) h ∙ sym (append_assoc xs xs' ys'),
      )
