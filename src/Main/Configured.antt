-- ===== src/Main/Configured.antt =====
-- src/main.cc: which ports a configuration file of the format gives the server.
use zmq_proxy.Cmd.{Ensures, Ensures-mono, Ensures-returns, returns, Run}
use zmq_proxy.Host.{Host, HostLaws, Contains}
use zmq_proxy.Ini.Format.{Entry, print, cut, IsPlain, IsString, lookup}
use zmq_proxy.Ini.Format.Loading.{ini_load-print}
use zmq_proxy.Ini.Format.Strings.{no_byte-All}
use zmq_proxy.Ini.Format.Values.{stored, ini_sget-cut}
use zmq_proxy.Ini.Load.{Dst, uninitialised, number, ini_sget}
use zmq_proxy.Main.{Exit, minus_one, started, config_file, main}
use zmq_proxy.Main.Bound.{BoundTo, Configures, Bound, main-Bound}
use zmq_proxy.Platform.{Platform, MessageLaws, Status, Io}
use zmq_proxy.Prelude.{
  ℕ, ◌-◌, ◌≡◌, refl, sym, ap, ◌∙◌, Bool, true, List, [], ◌∷◌, ◌++◌, Option, none, some, Bytes,
  codes, All, length, length-append, arith, ◌==◌,
}
use zmq_proxy.Server.Proxy.{Loop, continues}
use zmq_proxy.Server.Setup.{endpoint}

-- What was stored is a number only if the file has a value, and the conversion succeeds on it.
stored-number :
    (scan : Bytes → Option Status) (value : Option Bytes) (n : Status)
    → stored scan uninitialised value ≡ (true, number n)
    → (v : Bytes) × (value ≡ some v) × (scan v ≡ some n)
unfolding stored
stored-number scan none n e = cc
stored-number scan (some v) n e = (v, refl, converted (scan v) e)
  where
    converted :
        (o : Option Status)
        → ◌≡◌ {A = Bool × Dst}
            (true, elim o [ none ↦ uninitialised | some m ↦ number m ])
            (true, number n)
        → o ≡ some n
    converted none f = cc
    converted (some m) f = cc

result_of :
    {S A : Type 0} {a a' : A} {s s' : S} → ◌≡◌ {A = Run S A} (returns a s) (returns a' s') → a ≡ a'
result_of e = cc

module _ (p : Platform) (h : Host p) where
  -- The section "ProxyServer" gives the key a value, and the value starts with the number.
  pub record Gives (es : List Entry) (key : Bytes) (n : Status) : Type 0 where
    pub value : Bytes
    pub written : lookup (some (codes "ProxyServer")) key [] es ≡ some value
    pub converted : h.sscanf_d value ≡ some n

  -- `main` has failed, or its loop runs with its sockets bound to the ports that the file gives.
  abbrev pub BoundBy : List Entry → Exit p → Type 0
  BoundBy es minus_one = Unit
  BoundBy es (started flow) =
      (front : Status) × (back : Status) × (l : Loop p) × (flow ≡ continues l)
      × Gives es (codes "front_port") front
      × Gives es (codes "back_port") back
      × BoundTo p h l.server.front_sock (endpoint p h (codes "*") front)
      × BoundTo p h l.server.back_sock (endpoint p h (codes "*") back)

  module _ (es : List Entry) (plain : All IsPlain es) where
    end_of_block : length (cut es ++ 0 ∷ []) - 1 ≡ length (cut es)
    end_of_block = omega (arith, length-append (cut es) (0 ∷ []))

    Configures-Gives :
        {config : Bytes} (key : Bytes) (n : Status)
        → IsString key
        → config ≡ cut es ++ 0 ∷ []
        → Configures p h config key (number n)
        → Gives es key n
    Configures-Gives {config} key n is_string e c =
        let (v, written, converted) = stored-number h.sscanf_d _ n same_result in
        record { value = v; written = written; converted = converted }
      where
        section_IsString : IsString (codes "ProxyServer")
        section_IsString = no_byte-All (λ c. c == 0) (codes "ProxyServer") refl

        looks_up :
            (end : ℕ)
            → end ≡ length (cut es)
            → ini_sget end
                (some (codes "ProxyServer"))
                key
                (some h.sscanf_d)
                uninitialised
                (cut es ++ 0 ∷ [])
              ≡ returns
                  (stored h.sscanf_d uninitialised (lookup (some (codes "ProxyServer")) key [] es))
                  (cut es ++ 0 ∷ [])
        looks_up end at = rw at (
            ini_sget-cut es (some (codes "ProxyServer")) key h.sscanf_d uninitialised plain
              section_IsString is_string)

        same_result :
            stored h.sscanf_d uninitialised (lookup (some (codes "ProxyServer")) key [] es)
            ≡ (true, number n)
        same_result = result_of (
            sym (looks_up (length config - 1) (ap (λ l. length l - 1) e ∙ end_of_block))
            ∙ ap
                (λ l.
                  ini_sget (length config - 1) (some (codes "ProxyServer")) key (some h.sscanf_d)
                    uninitialised l)
                (sym e)
            ∙ c.found)

    -- If the configuration file is of the format, holds to it as long as `main` runs, and `main` comes
    -- to its loop, then the file gives "front_port" and "back_port" values in the section
    -- "ProxyServer", and the front and the back socket of the server in the loop were bound to
    -- "tcp://*:" and the numbers that `sscanf` makes of these values.
    pub main-Configured :
        MessageLaws p
        → HostLaws p h
        → Contains p h config_file (print es)
        → (parts n : ℕ) (s : Io p) → Ensures (λ exit _. BoundBy es exit) (main p h parts n s)
    main-Configured laws host_laws contains parts n s =
        Ensures-mono (main-Bound p h laws parts n s) by_file
      where
        front_IsString : IsString (codes "front_port")
        front_IsString = no_byte-All (λ c. c == 0) (codes "front_port") refl

        back_IsString : IsString (codes "back_port")
        back_IsString = no_byte-All (λ c. c == 0) (codes "back_port") refl

        by_file : (exit : Exit p) (t : Io p) → Bound p h exit → BoundBy es exit
        by_file minus_one t bound = tt
        by_file (started flow) t
              (config, front, back, l, e, loads, has_front, has_back, binds_front, binds_back) =
            let is_cut =
              Ensures-returns
                (ini_load-print p h host_laws es plain config_file contains loads.before)
                (some config) loads.behind loads.loaded config refl in
            (
              front,
              back,
              l,
              e,
              Configures-Gives (codes "front_port") front front_IsString is_cut has_front,
              Configures-Gives (codes "back_port") back back_IsString is_cut has_back,
              binds_front,
              binds_back,
            )
