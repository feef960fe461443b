-- ===== src/Server/Clock.antt =====
-- src/zmq_server.cc: `s_clock` on a clock that stands still, and on one that moves.
use zmq_proxy.Cmd.{Returns, yields, Returns-bind}
use zmq_proxy.Platform.{Platform, Io, int64}
use zmq_proxy.Prelude.{sym, subst, suc, ℕ, ◌+◌, ◌*◌, ◌^◌, ◌<◌, ◌≡◌, refl, lt→ltb, arith}
use zmq_proxy.Server.State.{s_clock, clock_after, lifetime}
use zmq_proxy.Zmq.Calls.{query-Returns, query-result}
use zmq_proxy.Zmq.Silent.{Silent, no_calls, Silent-trans}

module _ (p : Platform) where
  -- The clock reads `t` seconds.
  abbrev pub ClockReads : ℕ → Type 0
  ClockReads t = (w : p.World) → (p.gettimeofday w).0 ≡ t

  pub s_clock-Returns :
      (t : ℕ) (s : Io p)
      → ClockReads t
      → t * 1000 < 2 ^ 63
      → Returns (λ now u. (now ≡ t * 1000) × (u.sent ≡ s.sent)) (s_clock p s)
  unfolding s_clock int64
  s_clock-Returns t s reads fits =
      Returns-bind (query-Returns p p.gettimeofday s)
        λ sec u (e, kept). rw (e, reads s.world, lt→ltb _ _ fits) (yields (refl, kept))

  pub clock_after-Returns :
      (t delay : ℕ) (s : Io p)
      → ClockReads t
      → t * 1000 + delay < 2 ^ 63
      → Returns (λ at u. (at ≡ t * 1000 + delay) × (u.sent ≡ s.sent)) (clock_after p delay s)
  unfolding clock_after int64
  clock_after-Returns t delay s reads fits =
      Returns-bind (s_clock-Returns t s reads (omega arith))
        λ now u (e, kept). rw (e, lt→ltb _ _ fits) (yields (refl, kept))

  -- The clock is never so late that the expiry time of a worker overflows `int64_t`.
  abbrev pub ClockFits : Type 0
  ClockFits = (w : p.World) → (p.gettimeofday w).0 * 1000 + lifetime < 2 ^ 63

  -- From one world to another the clock is read once, as `t`, and there is no other input.
  abbrev pub Reads : p.World → ℕ → p.World → Type 0
  Reads w t w' =
      (v : p.World) × Silent p w v
      × (t ≡ (p.gettimeofday v).0 * 1000)
      × Silent p (p.gettimeofday v).1 w'

  pub Reads-behind : {u w w' : p.World} {t : ℕ} → Silent p u w → Reads w t w' → Reads u t w'
  Reads-behind silent (v, before, e, after) = (v, Silent-trans silent before, e, after)

  module _ (clock_fits : ClockFits) where
    pub s_clock-Reads :
        (s : Io p)
        → Returns
            (λ now u. Reads s.world now u.world × (now + lifetime < 2 ^ 63) × (u.sent ≡ s.sent))
            (s_clock p s)
    unfolding s_clock int64
    s_clock-Reads s =
        let fits = clock_fits s.world in
        Returns-bind (query-result p p.gettimeofday s) λ sec u (e, behind, kept).
          rw (e, lt→ltb ((p.gettimeofday s.world).0 * 1000) (2 ^ 63) (omega arith))
            (yields
              ((s.world, no_calls, refl, subst (Silent p _) (sym behind) no_calls), fits, kept))

    pub clock_after-Reads :
        (delay : ℕ) (s : Io p)
        → delay < suc lifetime
        → Returns
            (λ at u. (t : ℕ) × Reads s.world t u.world × (at ≡ t + delay) × (u.sent ≡ s.sent))
            (clock_after p delay s)
    unfolding clock_after int64
    clock_after-Reads delay s h = Returns-bind (s_clock-Reads s) λ now u (reading, fits, kept).
        rw (lt→ltb (now + delay) (2 ^ 63) (omega arith)) (yields (now, reading, refl, kept))
