-- ===== src/Server/Spec/Fresh.antt =====
-- Server/Spec: how old the last heartbeat of a worker in the map can be.
use zmq_proxy.Prelude.{
  sym, subst, ℕ, suc, ◌+◌, ◌≤◌, ◌≡◌, refl, ap, ◌∙◌, Option, none, some, List, [], ◌∷◌, ◌++◌,
  append_assoc, Bytes, str_eq, str_eq_iff, arith, Bool-cases, inl, inr,
}
use zmq_proxy.Server.Spec.Invariant.{Invariant, Rounds-but_last}
use zmq_proxy.Server.Spec.{
  Poll, polls_both, polls_back, Event, worker_says, clock_says, Table, Abstract, Back, registers,
  drops, relays, Beat, early, beats, Expire, checks, Rounds, unexpired,
}
use zmq_proxy.Server.State.{heartbeat_key, lifetime}

-- A heartbeat from `id` is in the trace, and the clock then read `t`.
pub record HeardAt (past : List Event) (id : Bytes) (t : ℕ) : Type 0 where
  pub before : List Event
  pub after : List Event
  pub position : past ≡ before ++ worker_says (id ∷ heartbeat_key ∷ []) ∷ clock_says t ∷ after

HeardAt-append :
    (past es : List Event) {id : Bytes} {t : ℕ} → HeardAt past id t → HeardAt (past ++ es) id t
HeardAt-append past es {id} {t} h = record {
  before = h.before;
  after = h.after ++ es;
  position =
      ap (λ l. l ++ es) h.position
      ∙ append_assoc h.before (worker_says (id ∷ heartbeat_key ∷ []) ∷ clock_says t ∷ h.after) es;
}

-- Every expiry time in the map is that of a heartbeat in the trace.
abbrev pub Backed : List Event → Table → Type 0
Backed past table =
    (id : Bytes) (e : ℕ) → table id ≡ some e → (t : ℕ) × HeardAt past id t × (e ≡ t + lifetime)

later :
    {past : List Event} {table : Table} (es : List Event)
    → Backed past table
    → Backed (past ++ es) table
later {past} es b id e at = let (t, h, same) = b id e at in (t, HeardAt-append past es h, same)

pub unexpired-some :
    (now : ℕ) (o : Option ℕ) (e : ℕ) → unexpired now o ≡ some e → (o ≡ some e) × (now ≤ e)
unexpired-some now none e h = cc
unexpired-some now (some x) e h = ground arith

Backed-Invariant : Invariant (λ past a. Backed past a.table)
Backed-Invariant = record {
  poll = λ past {a} {b} {es} k step. on_poll past a b es k step;
  back = λ past {a} {b} {es} k step. on_back past a b es k step;
  front = λ past {a} {es} k step. later es k;
  beat = λ past {a} {b} {es} k step. on_beat past a b es k step;
  expire = λ past {a} {b} {es} k step. on_expire past a b es k step;
}
  where
    on_poll :
        (past : List Event) (a b : Abstract) (es : List Event)
        → Backed past a.table
        → Poll a es b
        → Backed (past ++ es) b.table
    on_poll past a b es k (polls_both id x back front here e f) = rw f (later es k)
    on_poll past a b es k (polls_back back alone e f) = rw f (later es k)

    on_back :
        (past : List Event) (a b : Abstract) (es : List Event)
        → Backed past a.table
        → Back a es b
        → Backed (past ++ es) b.table
    on_back past a b es k (drops id data_ n e f) = rw f (later es k)
    on_back past a b es k (relays id msg n e f) = rw f (later es k)
    on_back past a b es k (registers id t e f) = rw f λ id' x at.
        elim (Bool-cases (str_eq id id')) [
          | inl same ↦ (
            t,
            record {
              before = past;
              after = [];
              position = rw (e, (str_eq_iff id id').0 same) refl;
            },
            ground (arith, at, same),
          )
          | inr other ↦ later es k id' x (ground (arith, at, other))
        ]

    on_beat :
        (past : List Event) (a b : Abstract) (es : List Event)
        → Backed past a.table
        → Beat a es b
        → Backed (past ++ es) b.table
    on_beat past a b es k (early t h e f) = rw f (later es k)
    on_beat past a b es k (beats t t' ids h keys e f) = rw f (later es k)

    on_expire :
        (past : List Event) (a b : Abstract) (es : List Event)
        → Backed past a.table
        → Expire a es b
        → Backed (past ++ es) b.table
    on_expire past a b es k (checks t e f) =
        rw f λ id x at. later es k id x (unexpired-some t (a.table id) x at).0

-- The last event of the trace is the clock reading `now`, and every worker in the map has sent a
-- heartbeat, of which its expiry time is, and which is at most `lifetime` older than `now`.
pub record Fresh (es : List Event) (table : Table) : Type 0 where
  pub now : ℕ
  pub earlier : List Event
  pub ends_at : es ≡ earlier ++ clock_says now ∷ []
  pub fresh :
      (id : Bytes) (e : ℕ)
      → table id ≡ some e
      → (t : ℕ) × HeardAt es id t × (e ≡ t + lifetime) × (now ≤ t + lifetime)

pub Rounds-Fresh :
    (n : ℕ) (a d : Abstract) (es : List Event)
    → ((id : Bytes) → a.table id ≡ none)
    → Rounds (suc n) a es d
    → Fresh es d.table
Rounds-Fresh n a d es empty steps =
    let (c, xs, ys, before, expire, e) =
      Rounds-but_last Backed-Invariant n [] a d es
        (λ id x at. absurd (ground (arith, empty id, at))) steps in
    at_end c xs ys before expire e
  where
    at_end :
        (c : Abstract) (xs ys : List Event)
        → Backed xs c.table
        → Expire c ys d
        → es ≡ xs ++ ys
        → Fresh es d.table
    at_end c xs ys before (checks now e f) g = record {
      now = now;
      earlier = xs;
      ends_at = g ∙ rw e refl;
      fresh = λ id x at.
          let (held, not_before) =
            unexpired-some now (c.table id) x
              (subst (λ (u : Abstract). u.table id ≡ some x) f at) in
          let (t, h, same) = later ys before id x held in
          (t, subst (λ l. HeardAt l id t) (sym g) h, same, omega arith);
    }
