-- ===== src/Server/Spec/Kept.antt =====
-- Server/Spec: no worker is forgotten while its heartbeats are recent.
use zmq_proxy.Prelude.{
  ℕ, ◌+◌, ◌≡◌, ◌≢◌, refl, Bool, false, Option, some, if◌then◌else◌, List, [], ◌∷◌, ◌++◌, map, Bytes,
  length, Bool-cases, inl, inr, str_eq, str_eq_refl, str_eq_iff, arith,
}
use zmq_proxy.Server.Spec.Fresh.{unexpired-some}
use zmq_proxy.Server.Spec.Invariant.{Invariant}
use zmq_proxy.Server.Spec.{
  Poll, polls_both, polls_back, Event, Table, worker_says, tells_client, clock_says, Abstract, beat,
  unexpired, Back, registers, drops, relays, Front, dispatches, refuses, Beat, early, beats, Expire,
  checks,
}
use zmq_proxy.Server.State.{heartbeat_key, lifetime}

-- What a trace says of one identity: whether its heartbeat is the last event, and its deadline.
pub record Watch : Type 0 where
  pub calling : Bool
  pub deadline : Option ℕ

-- A heartbeat of `id` is dated by the reading of the clock behind it, and lasts for the lifetime;
-- every other reading ends a deadline that it is behind.
unfoldable pub watch : Bytes → Watch → Event → Watch
watch id w (worker_says (i ∷ data_ ∷ [])) = record w {
  calling = if str_eq i id then str_eq data_ heartbeat_key else false;
}
watch id w (clock_says t) = record {
  calling = false;
  deadline = if w.calling then some (t + lifetime) else unexpired t w.deadline;
}
watch id w _ = record w { calling = false }

unfoldable pub replay : Bytes → Watch → List Event → Watch
replay id w [] = w
replay id w (e ∷ es) = replay id (watch id w e) es

replay-append :
    (id : Bytes) (w : Watch) (xs ys : List Event)
    → replay id w (xs ++ ys) ≡ replay id (replay id w xs) ys
unfolding replay
replay-append id w [] ys = refl
replay-append id w (e ∷ xs) ys = replay-append id (watch id w e) xs ys

-- The deadline is that of the entry, if there is a deadline.
abbrev pub IsDeadlineOf : Option ℕ → Option ℕ → Type 0
IsDeadlineOf deadline entry = (e : ℕ) → deadline ≡ some e → entry ≡ some e

-- Between steps: no heartbeat is without its date, and the deadline is that of the entry.
abbrev pub Stands : Watch → Option ℕ → Type 0
Stands w entry = (w.calling ≡ false) × IsDeadlineOf w.deadline entry

-- A reading of the clock that no heartbeat is in front of, by which the entry is not touched.
reads :
    (t : ℕ) (deadline entry : Option ℕ)
    → IsDeadlineOf deadline entry
    → IsDeadlineOf (unexpired t deadline) entry
reads t deadline entry h e f = h e (unexpired-some t deadline e f).0

-- The same, where expired entries go.
expires :
    (t : ℕ) (deadline entry : Option ℕ)
    → IsDeadlineOf deadline entry
    → IsDeadlineOf (unexpired t deadline) (unexpired t entry)
expires t deadline entry h e f =
    let (at, late) = unexpired-some t deadline e f in rw (h e at) (ground arith)

module _ (id : Bytes) where
  -- The events take the entry from one to the other.
  abbrev Follows : List Event → Option ℕ → Option ℕ → Type 0
  Follows es entry entry' = (w : Watch) → Stands w entry → Stands (replay id w es) entry'

  on_clock :
      (t : ℕ) (w : Watch) (entry : Option ℕ)
      → Stands w entry
      → Stands (watch id w (clock_says t)) entry
  unfolding watch
  on_clock t w entry (quiet, h) = (refl, rw quiet (reads t w.deadline entry h))

  Poll-Follows :
      {a b : Abstract} {es : List Event} → Poll a es b → Follows es (a.table id) (b.table id)
  unfolding replay watch
  Poll-Follows (polls_both i x back front here e f) w (quiet, h) = rw (e, f) (refl, h)
  Poll-Follows (polls_back back alone e f) w (quiet, h) = rw (e, f) (refl, h)

  Back-Follows :
      {a b : Abstract} {es : List Event} → Back a es b → Follows es (a.table id) (b.table id)
  unfolding replay watch
  Back-Follows {a} (registers i t e f) w (quiet, h) =
      rw (e, f)
        (elim (Bool-cases (str_eq i id)) [
          | inl same ↦ rw (same, str_eq_refl heartbeat_key) (refl, λ d at. at)
          | inr other ↦ rw other (refl, reads t w.deadline (a.table id) h)
        ])
  Back-Follows (drops i data_ n e f) w (quiet, h) =
      rw (e, f) (ground (arith, n, str_eq_iff data_ heartbeat_key), h)
  Back-Follows {a} (relays i msg n e f) w (quiet, h) = rw (e, f) (relayed msg n)
    where
      relayed :
          (msg : List Bytes)
          → length msg ≢ 1
          → Stands (replay id w (worker_says (i ∷ msg) ∷ tells_client msg ∷ [])) (a.table id)
      relayed [] n = (refl, h)
      relayed (data_ ∷ []) n = absurd (n refl)
      relayed (_ ∷ _ ∷ _) n = (refl, h)

  Front-Follows :
      {a : Abstract} {es : List Event} → Front a es → Follows es (a.table id) (a.table id)
  unfolding replay watch
  Front-Follows (dispatches i d request here f) w (quiet, h) = rw f (refl, h)
  Front-Follows (refuses client rest out f) w (quiet, h) = rw f (refl, h)

  beats-Follows :
      (ids : List Bytes) (t : ℕ) (entry : Option ℕ)
      → Follows (map beat ids ++ clock_says t ∷ []) entry entry
  unfolding replay watch
  beats-Follows [] t entry w k = on_clock t w entry k
  beats-Follows (i ∷ ids) t entry w (quiet, h) =
      beats-Follows ids t entry (record w { calling = false }) (refl, h)

  Beat-Follows :
      {a b : Abstract} {es : List Event} → Beat a es b → Follows es (a.table id) (b.table id)
  unfolding replay
  Beat-Follows {a} (early t h e f) w k = rw (e, f) (on_clock t w (a.table id) k)
  Beat-Follows {a} (beats t t' ids h keys e f) w k =
      rw (e, f) (beats-Follows ids t' (a.table id) _ (on_clock t w (a.table id) k))

  Expire-Follows :
      {a b : Abstract} {es : List Event} → Expire a es b → Follows es (a.table id) (b.table id)
  unfolding replay watch
  Expire-Follows {a} (checks t e f) w (quiet, h) =
      rw (e, f) (refl, rw quiet (expires t w.deadline (a.table id) h))

-- In a trace from a map, an identity whose deadline has not passed by any reading of the clock is in
-- the map, with this deadline. `w` is what was known of it at the start.
pub Stands-Invariant :
    (id : Bytes) (w : Watch) → Invariant (λ past a. Stands (replay id w past) (a.table id))
Stands-Invariant id w = record {
  poll = λ past {es} k step. rw (replay-append id w past es) (Poll-Follows id step _ k);
  back = λ past {es} k step. rw (replay-append id w past es) (Back-Follows id step _ k);
  front = λ past {es} k step. rw (replay-append id w past es) (Front-Follows id step _ k);
  beat = λ past {es} k step. rw (replay-append id w past es) (Beat-Follows id step _ k);
  expire = λ past {es} k step. rw (replay-append id w past es) (Expire-Follows id step _ k);
}

-- From the map `before`, the trace leads to the map `after` without a worker being forgotten: each
-- whose deadline stands behind the trace is in the map, with its deadline.
abbrev pub Kept : Table → List Event → Table → Type 0
Kept before es after =
    (id : Bytes)
    → IsDeadlineOf (replay id (record { calling = false; deadline = before id }) es).deadline
        (after id)
