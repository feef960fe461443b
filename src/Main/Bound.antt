-- ===== src/Main/Bound.antt =====
-- src/main.cc: the configuration file decides which endpoints the sockets of the server are bound to.
use zmq_proxy.Cmd.{
  Cmd, returned, Run, returns, throws, undefined, out_of_fuel, Ensures, threw, undef, spent,
  Ensures-bind, Ensures-then, Ensures-self,
}
use zmq_proxy.Host.{Host}
use zmq_proxy.Ini.Load.{Dst, uninitialised, number, pointer, within, ini_load, ini_sget}
use zmq_proxy.Main.{
  Option, or_minus_one, Exit, minus_one, started, config_file, new_context, sget_port, read_port,
  run_server, main,
}
use zmq_proxy.Platform.{done, Platform, MessageLaws, Status, Io, query, checked-Ensures}
use zmq_proxy.Prelude.{
  ℕ, ◌-◌, ◌≡◌, refl, sym, ap, ◌∙◌, subst, Bool, true, false, none, some, [], Bytes, codes, length,
  if◌then◌else◌,
}
use zmq_proxy.Server.Proxy.{Loop, continues}
use zmq_proxy.Server.Proxy.Invariant.{start-Serving}
use zmq_proxy.Server.Setup.{new_server, new_socket, bind, setsockopt, endpoint, send_timeout}

module _ (p : Platform) (h : Host p) where
  or_minus_one-Ensures :
      {A : Type 0} {P : Exit p → Io p → Type 0} (o : Option A) (next : A → Cmd (Io p) (Exit p))
      (s : Io p)
      → P minus_one s
      → ((a : A) → o ≡ some a → Ensures P (next a s))
      → Ensures P (or_minus_one p h o next s)
  unfolding or_minus_one
  or_minus_one-Ensures none next s failed each = returned failed
  or_minus_one-Ensures (some a) next s failed each = each a refl

  -- In some state of the world the socket was bound to the endpoint.
  pub record BoundTo (sock : p.Socket) (addr : Bytes) : Type 0 where
    pub before : p.World
    pub behind : p.World
    pub success : h.zmq_bind sock addr before ≡ (done tt, behind)

  -- The look-up of a port in the block.
  abbrev pub lookup : Bytes → Bytes → Run Bytes (Bool × Dst)
  lookup config key =
      ini_sget (length config - 1) (some (codes "ProxyServer")) key (some h.sscanf_d) uninitialised
        config

  -- The block has the number under the key, in the section "ProxyServer".
  pub record Configures (config key : Bytes) (dst : Dst) : Type 0 where
    pub block : Bytes
    pub found : lookup config key ≡ returns (true, dst) block

  sget_port-Configures :
      (config key : Bytes) (s : Io p)
      → Ensures
          (λ port _. (dst : Dst) → port ≡ some dst → Configures config key dst)
          (sget_port p h config key s)
  unfolding sget_port within
  sget_port-Configures config key s = by_run (lookup config key) refl
    where
      by_flag :
          (found : Bool) (dst : Dst) (b : Bytes)
          → lookup config key ≡ returns (found, dst) b
          → (d : Dst) → (if found then some dst else none) ≡ some d
          → Configures config key d
      by_flag true dst b e d f = record { block = b; found = cc }
      by_flag false dst b e d f = cc

      by_run :
          (r : Run Bytes (Bool × Dst))
          → lookup config key ≡ r
          → Ensures
              (λ port _. (dst : Dst) → port ≡ some dst → Configures config key dst)
              (sget_port p h config key s)
      by_run (returns (found, dst) b) e = rw e (returned (by_flag found dst b e))
      by_run (throws x b) e = rw e threw
      by_run undefined e = rw e undef
      by_run out_of_fuel e = rw e spent

  read_port-number : (dst : Dst) (s : Io p) → Ensures (λ n _. dst ≡ number n) (read_port p h dst s)
  unfolding read_port
  read_port-number uninitialised s = undef
  read_port-number (number n) s = returned refl
  read_port-number (pointer val) s = undef

  new_server-BoundTo :
      (context : h.Context) (frontport backport : Status) (s : Io p)
      → Ensures
          (λ server _.
            BoundTo server.front_sock (endpoint p h (codes "*") frontport)
            × BoundTo server.back_sock (endpoint p h (codes "*") backport)
            × (server.vec_work ≡ []))
          (new_server p h context frontport backport [] s)
  unfolding new_server bind
  new_server-BoundTo context frontport backport s =
      let at_front = endpoint p h (codes "*") frontport in
      let at_back = endpoint p h (codes "*") backport in
      Ensures-then (new_socket p h context h.zmq_router s) λ front t.
        Ensures-then (new_socket p h context h.zmq_router t) λ back u.
          Ensures-bind
            (checked-Ensures p (h.zmq_bind front at_front) u
              λ _ w e. record { before = u.world; behind = w; success = e })
            λ _ v front_bound.
              Ensures-bind
                (checked-Ensures p (h.zmq_bind back at_back) v
                  λ _ w e. record { before = v.world; behind = w; success = e })
                λ _ w back_bound.
                  Ensures-then (setsockopt p h front h.zmq_sndtimeo send_timeout w) λ _ x.
                    Ensures-then (setsockopt p h back h.zmq_sndtimeo send_timeout x)
                      λ _ y. returned (front_bound, back_bound, refl)

  -- `ini_load` makes the block of the file of the configuration.
  pub record Loads (config : Bytes) : Type 0 where
    pub before : Io p
    pub behind : Io p
    pub loaded : ini_load p h config_file before ≡ returns (some config) behind

  -- `main` has failed, or its loop runs with the front socket bound to the port of "front_port" and
  -- the back socket to that of "back_port", on all addresses.
  abbrev pub Bound : Exit p → Type 0
  Bound minus_one = Unit
  Bound (started flow) =
      (config : Bytes) × (front : Status) × (back : Status) × (l : Loop p) × (flow ≡ continues l)
      × Loads config
      × Configures config (codes "front_port") (number front)
      × Configures config (codes "back_port") (number back)
      × BoundTo l.server.front_sock (endpoint p h (codes "*") front)
      × BoundTo l.server.back_sock (endpoint p h (codes "*") back)

  module _ (laws : MessageLaws p) (parts n : ℕ) where
    run_server-Bound :
        (config : Bytes) (front_port back_port : Dst) (s : Io p)
        → Loads config
        → Configures config (codes "front_port") front_port
        → Configures config (codes "back_port") back_port
        → Ensures (λ exit _. Bound exit) (run_server p h parts n front_port back_port s)
    unfolding run_server
    run_server-Bound config front_port back_port s loads has_front has_back =
        Ensures-then (new_context p h s) λ ctx t. Ensures-then (query p h.time t) λ now u.
          Ensures-then (query p (h.srand now) u) λ _ v.
            Ensures-bind (read_port-number front_port v) λ front w is_front.
              Ensures-bind (read_port-number back_port w) λ back x is_back.
                Ensures-bind (new_server-BoundTo ctx front back x)
                  λ server y (front_bound, back_bound, none_yet).
                    Ensures-bind (start-Serving p laws parts n server y (rw none_yet tt))
                      λ flow z (l, e, v'). returned (
                        config,
                        front,
                        back,
                        l,
                        e,
                        loads,
                        subst (Configures config (codes "front_port")) is_front has_front,
                        subst (Configures config (codes "back_port")) is_back has_back,
                        subst (λ sock. BoundTo sock (endpoint p h (codes "*") front))
                            (sym v'.front_sock) front_bound,
                        subst (λ sock. BoundTo sock (endpoint p h (codes "*") back))
                            (sym v'.back_sock) back_bound,
                      )

    -- If `main` comes to its loop, then the front socket of the server in the loop was bound to
    -- "tcp://*:" and the number that the configuration file has under "front_port", and the back
    -- socket to the same with "back_port". Messages behave as documented; nothing else is asked of
    -- the calls of libzmq and the C library, and where one of them fails `main` is not in its loop.
    pub main-Bound : (s : Io p) → Ensures (λ exit _. Bound exit) (main p h parts n s)
    unfolding main
    main-Bound s = Ensures-bind (Ensures-self (ini_load p h config_file s)) λ loaded t e.
        or_minus_one-Ensures loaded _ t tt λ config here.
          Ensures-bind (sget_port-Configures config (codes "front_port") t)
            λ found_front u has_front. or_minus_one-Ensures found_front _ u tt λ front_port at.
              Ensures-bind (sget_port-Configures config (codes "back_port") u)
                λ found_back v has_back. or_minus_one-Ensures found_back _ v tt λ back_port at'.
                  run_server-Bound config front_port back_port v
                    (record { before = s; behind = t; loaded = e ∙ ap (λ o. returns o t) here })
                    (has_front front_port at) (has_back back_port at')
