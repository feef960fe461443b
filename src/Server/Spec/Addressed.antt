-- ===== src/Server/Spec/Addressed.antt =====
-- Server/Spec: who is sent messages as a worker.
use zmq_proxy.Server.Spec.Invariant.{Invariant}
use zmq_proxy.Prelude.{
  ◌≢◌, length, Option, ℕ, ◌≡◌, refl, sym, ◌∙◌, true, is_some, if◌then◌else◌, List, [], ◌∷◌, ◌++◌,
  map, Bytes, str_eq, str_eq_refl, str_eq_iff, arith, some, none,
}
use zmq_proxy.Server.Registry.Identities.{member}
use zmq_proxy.Server.Spec.{
  Poll, polls_both, polls_back, poll_says, Event, worker_says, client_says, tells_client,
  tells_worker, clock_says, Table, Abstract, beat, Back, registers, drops, relays, Front,
  dispatches, refuses, Beat, early, beats, Expire, checks, unexpired,
}
use zmq_proxy.Server.State.{heartbeat_key}

-- The identities that have sent a heartbeat, when one more event has happened.
unfoldable pub hears : List Bytes → Event → List Bytes
hears known (worker_says (id ∷ data_ ∷ [])) =
    if str_eq data_ heartbeat_key then id ∷ known else known
hears known _ = known

unfoldable pub heard : List Bytes → List Event → List Bytes
heard known [] = known
heard known (e ∷ es) = heard (hears known e) es

-- A message to a worker is addressed to one of the identities.
abbrev pub IsAddressed : List Bytes → Event → Type 0
IsAddressed known (tells_worker []) = ⊥
IsAddressed known (tells_worker (id ∷ msg)) = member id known ≡ true
IsAddressed known (worker_says msg) = Unit
IsAddressed known (client_says msg) = Unit
IsAddressed known (tells_client msg) = Unit
IsAddressed known (clock_says t) = Unit
IsAddressed known (poll_says back front) = Unit

-- Every message to a worker is addressed to an identity that has sent a heartbeat before, or is one
-- of `known`.
unfoldable pub Addressed : List Bytes → List Event → Type 0
Addressed known [] = Unit
Addressed known (e ∷ es) = IsAddressed known e × Addressed (hears known e) es

-- The keys of the map are among the identities.
abbrev pub Known : List Bytes → Table → Type 0
Known known table = (id : Bytes) → is_some (table id) ≡ true → member id known ≡ true

heard-append :
    (known : List Bytes) (xs ys : List Event) → heard known (xs ++ ys) ≡ heard (heard known xs) ys
unfolding heard
heard-append known [] ys = refl
heard-append known (e ∷ xs) ys = heard-append (hears known e) xs ys

Addressed-append :
    (known : List Bytes) (xs ys : List Event)
    → Addressed known xs
    → Addressed (heard known xs) ys
    → Addressed known (xs ++ ys)
unfolding Addressed heard
Addressed-append known [] ys a b = b
Addressed-append known (e ∷ xs) ys (h, a) b = (h, Addressed-append (hears known e) xs ys a b)

-- A trace is in order from `known`, and leaves `table` with keys that have been heard.
abbrev pub Keeps : List Bytes → List Event → Table → Type 0
Keeps known es table = Addressed known es × Known (heard known es) table

Keeps-append :
    (known : List Bytes) (xs ys : List Event) (table : Table)
    → Addressed known xs
    → Keeps (heard known xs) ys table
    → Keeps known (xs ++ ys) table
Keeps-append known xs ys table a (b, k) =
    (Addressed-append known xs ys a b, rw (heard-append known xs ys) k)

hears-relays :
    (known : List Bytes) (id : Bytes) (msg : List Bytes)
    → length msg ≢ 1
    → hears known (worker_says (id ∷ msg)) ≡ known
unfolding hears
hears-relays known id [] n = refl
hears-relays known id (data_ ∷ []) n = absurd (n refl)
hears-relays known id (_ ∷ _ ∷ _) n = refl

Poll-Keeps :
    (known : List Bytes) {a b : Abstract} {es : List Event}
    → Known known a.table
    → Poll a es b
    → Keeps known es b.table
unfolding Addressed heard hears
Poll-Keeps known k (polls_both id x back front here e f) = rw (e, f) ((tt, tt), k)
Poll-Keeps known k (polls_back back alone e f) = rw (e, f) ((tt, tt), k)

Back-Keeps :
    (known : List Bytes) {a b : Abstract} {es : List Event}
    → Known known a.table
    → Back a es b
    → Keeps known es b.table
unfolding Addressed heard hears member
Back-Keeps known k (registers id t e f) =
    rw (e, f, str_eq_refl heartbeat_key) ((tt, (tt, tt)), λ i h. ground (arith, h, k i))
Back-Keeps known k (drops id data_ n e f) =
    rw (e, f) ((tt, tt), λ i h. ground (arith, n, str_eq_iff data_ heartbeat_key, k i h))
Back-Keeps known k (relays id msg n e f) =
    rw (e, f) ((tt, (tt, tt)), λ i h. rw (hears-relays known id msg n) (k i h))

Front-Keeps :
    (known : List Bytes) {a : Abstract} {es : List Event}
    → Known known a.table
    → Front a es
    → Keeps known es a.table
unfolding Addressed heard hears
Front-Keeps known k (dispatches id e request here f) = rw f ((tt, (k id (rw here refl), tt)), k)
Front-Keeps known k (refuses client rest out f) = rw f ((tt, (tt, tt)), k)

beats-Keeps :
    (known ids : List Bytes) (t : ℕ)
    → ((id : Bytes) → member id ids ≡ true → member id known ≡ true)
    → Addressed known (map beat ids ++ clock_says t ∷ [])
      × (heard known (map beat ids ++ clock_says t ∷ []) ≡ known)
unfolding Addressed heard hears member
beats-Keeps known [] t sub = ((tt, tt), refl)
beats-Keeps known (id ∷ ids) t sub =
    let (a, same) = beats-Keeps known ids t (λ i h. sub i (ground (arith, h))) in
    ((sub id (ground (arith, str_eq_refl id)), a), same)

Beat-Keeps :
    (known : List Bytes) {a b : Abstract} {es : List Event}
    → Known known a.table
    → Beat a es b
    → Keeps known es b.table
unfolding Addressed heard hears
Beat-Keeps known k (early t h e f) = rw (e, f) ((tt, tt), k)
Beat-Keeps known k (beats t t' ids h (d, keys) e f) =
    let (a, same) = beats-Keeps known ids t' (λ i m. k i (sym (keys i) ∙ m)) in
    rw (e, f, same) ((tt, a), k)

Expire-Keeps :
    (known : List Bytes) {a b : Abstract} {es : List Event}
    → Known known a.table
    → Expire a es b
    → Keeps known es b.table
unfolding Addressed heard hears
Expire-Keeps known {a} k (checks t e f) = rw (e, f) ((tt, tt), λ i h. k i (still (a.table i) h))
  where
    still : (o : Option ℕ) → is_some (unexpired t o) ≡ true → is_some o ≡ true
    still none h = h
    still (some e) h = refl

-- In a trace from a map whose keys are among `known`, every message to a worker is addressed to one
-- of these or to an identity that has sent a heartbeat before.
pub Keeps-Invariant : (known : List Bytes) → Invariant (λ past a. Keeps known past a.table)
Keeps-Invariant known = record {
  poll = λ past (a, k) step. Keeps-append known past _ _ a (Poll-Keeps _ k step);
  back = λ past (a, k) step. Keeps-append known past _ _ a (Back-Keeps _ k step);
  front = λ past (a, k) step. Keeps-append known past _ _ a (Front-Keeps _ k step);
  beat = λ past (a, k) step. Keeps-append known past _ _ a (Beat-Keeps _ k step);
  expire = λ past (a, k) step. Keeps-append known past _ _ a (Expire-Keeps _ k step);
}
