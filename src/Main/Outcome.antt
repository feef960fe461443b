-- ===== src/Main/Outcome.antt =====
-- src/main.cc: how a run of the whole program goes.
use zmq_proxy.Cmd.{
  returns, Ensures-self, Ensures-both, pure, ◌>>=◌, Run, Cmd, undefined, and_then, Returns, yields,
  Returns-bind, Returns-Ensures,
}
use zmq_proxy.Host.{Host, HostLaws, Roomy, Opens}
use zmq_proxy.Ini.Load.{ini_load, Dst}
use zmq_proxy.Ini.Safety.Loading.{Valid, ini_load-Valid}
use zmq_proxy.Ini.Safety.Quiet.{ini_load-Quiet}
use zmq_proxy.Main.{
  Exit, minus_one, started, config_file, new_context, read_port, run_server, main, or_minus_one,
}
use zmq_proxy.Main.Ports.{HasValue, Scanned, scanned, untouched, IsPort, sget_port-IsPort}
use zmq_proxy.Multipart.Outcomes.{Prefix, Yields}
use zmq_proxy.Platform.{Platform, MessageLaws, Memory, Status, Io}
use zmq_proxy.Prelude.{
  subst, ℕ, ◌≡◌, refl, ap, ◌∙◌, Option, none, some, [], Bytes, codes, ◌⊎◌, inl, inr,
}
use zmq_proxy.Server.Proxy.{start}
use zmq_proxy.Server.Proxy.Steps.{Fed, Steady}
use zmq_proxy.Server.Proxy.Total.{start-Returns}
use zmq_proxy.Server.Refines.Runs.{Runs}
use zmq_proxy.Server.Setup.{new_server, new_socket, bind, setsockopt, endpoint, send_timeout}
use zmq_proxy.Server.State.{Server}
use zmq_proxy.Zmq.Calls.{checked-Returns, query-Returns}

-- The run returns a result and a state with `P`, or it is undefined, for a cause with `Cause`.
pub data Outcome {S A : Type 0} (Cause : Type 0) (P : A → S → Type 0) : Run S A → Type 0 where
  finishes : {r : Run S A} → Returns P r → Outcome Cause P r
  reads_garbage : Cause → Outcome Cause P undefined

Outcome-behind :
    {S A B Cause : Type 0} {P : B → S → Type 0} {Q : A → S → Type 0} {r : Run S A} {k : A → Cmd S B}
    → Returns Q r
    → ((a : A) (s : S) → Q a s → Outcome Cause P (k a s))
    → Outcome Cause P (and_then r k)
Outcome-behind (yields q) next = next _ _ q

module _ (p : Platform) (h : Host p) where
  -- The file that `ini_load` reads in `s` has a value for the key in the section "ProxyServer", which
  -- `sscanf` makes no number of.
  pub record NoNumber (s : Io p) (key : Bytes) : Type 0 where
    pub config : Bytes
    pub behind : Io p
    pub loaded : ini_load p h config_file s ≡ returns (some config) behind
    pub value : Bytes
    pub has_value : HasValue config key value
    pub no_number : h.sscanf_d value ≡ none

  -- One of the ports is such.
  abbrev pub Garbage : Io p → Type 0
  Garbage s = NoNumber s (codes "front_port") ⊎ NoNumber s (codes "back_port")

  -- Nothing is sent behind `s` where `main` returns -1; else `n` rounds of a server without workers
  -- are run, which refine Server/Spec.
  abbrev pub Ran : ℕ → Io p → Exit p → Io p → Type 0
  Ran n s minus_one t = t.sent ≡ s.sent
  Ran n s (started flow) t =
      (server : Server p) × (s' : Io p) × (s'.sent ≡ s.sent)
      × (server.vec_work ≡ [])
      × Runs p (Prefix p) n server s' flow t

  module _ (opens : Opens p h) where
    new_server-empty :
        (context : h.Context) (frontport backport : Status) (s : Io p)
        → Returns
            (λ server t. (t.sent ≡ s.sent) × (server.vec_work ≡ []))
            (new_server p h context frontport backport [] s)
    unfolding new_server new_socket bind setsockopt
    new_server-empty context frontport backport s =
        let at_front = endpoint p h (codes "*") frontport in
        let at_back = endpoint p h (codes "*") backport in
        Returns-bind (checked-Returns p _ s (opens.makes_socket context h.zmq_router s.world))
          λ front t a.
            Returns-bind (checked-Returns p _ t (opens.makes_socket context h.zmq_router t.world))
              λ back u b.
                Returns-bind (checked-Returns p _ u (opens.binds front at_front u.world)) λ _ v c.
                  Returns-bind (checked-Returns p _ v (opens.binds back at_back v.world)) λ _ w d.
                    Returns-bind
                      (checked-Returns p _ w (opens.sets front h.zmq_sndtimeo send_timeout w.world))
                      λ _ x e.
                        Returns-bind
                          (checked-Returns p _ x
                            (opens.sets back h.zmq_sndtimeo send_timeout x.world))
                          λ _ y f. yields (f ∙ e ∙ d ∙ c ∙ b ∙ a, refl)

    module _ (laws : MessageLaws p) (memory : Memory p) (yielding : Yields p) (parts : ℕ)
        (steady : Steady p parts) (fed : (sock : p.Socket) → Fed p parts sock) (n : ℕ) where
      serve_on :
          (context : h.Context) (front back : Status) (s s0 : Io p)
          → s.sent ≡ s0.sent
          → Returns (Ran n s0) (
              (new_server p h context front back [] >>= λ server.
              start p parts n server >>= λ flow. pure (started flow))
                s)
      serve_on context front back s s0 same =
          Returns-bind (new_server-empty context front back s) λ server t (kept, none_yet).
            Returns-bind
              (start-Returns p parts laws memory yielding steady n server t (fed server.back_sock)
                (fed server.front_sock) (rw none_yet tt))
              λ flow u runs. yields (server, t, kept ∙ same, none_yet, runs)

      module _ (config : Bytes) (s0 behind : Io p)
          (loaded : ini_load p h config_file s0 ≡ returns (some config) behind) where
        -- A variable that the file has no number for.
        no_number :
            (key value : Bytes)
            → HasValue config key value
            → h.sscanf_d value ≡ none
            → NoNumber s0 key
        no_number key value has none_read = record {
          config = config;
          behind = behind;
          loaded = loaded;
          value = value;
          has_value = has;
          no_number = none_read;
        }

        run_server-Outcome :
            {front_port back_port : Dst} (s : Io p)
            → Scanned h.sscanf_d (HasValue config (codes "front_port")) front_port
            → Scanned h.sscanf_d (HasValue config (codes "back_port")) back_port
            → s.sent ≡ s0.sent
            → Outcome (Garbage s0) (Ran n s0) (run_server p h parts n front_port back_port s)
        unfolding run_server new_context read_port
        run_server-Outcome s front back same =
            Outcome-behind (checked-Returns p h.zmq_ctx_new s (opens.makes_context s.world))
              λ ctx t a. Outcome-behind (query-Returns p h.time t) λ now u (_, b).
                Outcome-behind (query-Returns p (h.srand now) u)
                  λ _ v (_, c). by_ports ctx v (c ∙ b ∙ a ∙ same) front back
          where
            by_ports :
                {front_port back_port : Dst} (ctx : h.Context) (v : Io p)
                → v.sent ≡ s0.sent
                → Scanned h.sscanf_d (HasValue config (codes "front_port")) front_port
                → Scanned h.sscanf_d (HasValue config (codes "back_port")) back_port
                → Outcome (Garbage s0) (Ran n s0) (
                    (read_port p h front_port >>= λ front. read_port p h back_port >>= λ back.
                    new_server p h ctx front back [] >>= λ server.
                    start p parts n server >>= λ flow. pure (started flow))
                      v)
            by_ports ctx v e (scanned f) (scanned b) = finishes (serve_on ctx f b v s0 e)
            by_ports ctx v e (scanned f) (untouched value has none_read) =
                reads_garbage (inr (no_number (codes "back_port") value has none_read))
            by_ports ctx v e (untouched value has none_read) back =
                reads_garbage (inl (no_number (codes "front_port") value has none_read))

      or_minus_one-Outcome :
          {A : Type 0} (o : Option A) (next : A → Cmd (Io p) (Exit p)) (s s0 : Io p)
          → s.sent ≡ s0.sent
          → ((a : A) → o ≡ some a → Outcome (Garbage s0) (Ran n s0) (next a s))
          → Outcome (Garbage s0) (Ran n s0) (or_minus_one p h o next s)
      unfolding or_minus_one
      or_minus_one-Outcome none next s s0 same each = finishes (yields same)
      or_minus_one-Outcome (some a) next s s0 same each = each a refl

      -- On a host where memory does not run out, an open file has a size of at most
      -- 2^31 - 2 bytes, and sockets are made
      -- and bound, with messages and `malloc` as documented and the conditions for the rounds of
      -- `Start` -- peers that keep sending whole messages of at most `parts` parts, a poll that
      -- does not fail, a clock in range, sends that are accepted or give up with EAGAIN -- `main`
      -- does one of three things, whatever the configuration file holds: it returns -1 and has
      -- sent nothing; it makes a server without workers and runs its loop, which refines
      -- Server/Spec; or it is undefined, since it reads a port variable that `sscanf` did not write:
      -- the file has a value for that port in the section "ProxyServer", of which `sscanf` makes no
      -- number.
      pub main-Outcome :
          HostLaws p h → Roomy p h → (s : Io p) → Outcome (Garbage s) (Ran n s) (main p h parts n s)
      unfolding main
      main-Outcome host_laws roomy s =
          Outcome-behind
            (Returns-Ensures (ini_load-Valid p h host_laws roomy config_file s) (
              Ensures-both (ini_load-Quiet p s.sent h config_file s refl)
                (Ensures-self (ini_load p h config_file s))))
            λ loaded t (valid, (quiet, run)). or_minus_one-Outcome loaded _ t s quiet λ config here.
              let ini = subst Valid here valid in
              Outcome-behind (sget_port-IsPort p h config (codes "front_port") t ini)
                λ found_front u (front, same).
                  or_minus_one-Outcome found_front _ u s (ap (λ r. r.sent) same ∙ quiet)
                    λ front_port at.
                      Outcome-behind (sget_port-IsPort p h config (codes "back_port") u ini)
                        λ found_back v (back, same').
                          or_minus_one-Outcome found_back _ v s
                            (ap (λ r. r.sent) (same' ∙ same) ∙ quiet)
                            λ back_port at'.
                              run_server-Outcome config s t (run ∙ ap (λ o. returns o t) here) v
                                (subst (IsPort h.sscanf_d (HasValue config (codes "front_port"))) at
                                  front)
                                (subst (IsPort h.sscanf_d (HasValue config (codes "back_port"))) at'
                                  back)
                                (ap (λ r. r.sent) (same' ∙ same) ∙ quiet)
