-- ===== src/Main/Ports.antt =====
-- src/main.cc: what the port variables hold behind `ini_sget`.
use zmq_proxy.Cmd.{
  returns, Ensures-bind, Ensures-self, Returns, yields, Returns-bind, Returns-Ensures, Ensures,
  returned,
}
use zmq_proxy.Host.{Host}
use zmq_proxy.Ini.Get.{ini_get}
use zmq_proxy.Ini.Load.{Dst, uninitialised, number, string_at, store, ini_sget}
use zmq_proxy.Ini.Safety.Loading.{Valid, ini_sget-Returns, within-Returns}
use zmq_proxy.Main.{sget_port}
use zmq_proxy.Platform.{Platform, Status, Io}
use zmq_proxy.Prelude.{
  ℕ, ◌+◌, ◌≡◌, refl, subst, true, Option, none, some, Bytes, codes, arith, Bool-cases, inl, inr,
  length, ◌-◌,
}

-- What a variable holds behind `sscanf (value, "%d", &variable)`: a number, or what it held before,
-- for a `value` that does not begin with a number.
pub data Scanned (scan : Bytes → Option Status) (IsValue : Bytes → Type 0) : Dst → Type 0 where
  scanned : (n : Status) → Scanned scan IsValue (number n)
  untouched :
      (value : Bytes) → IsValue value → scan value ≡ none → Scanned scan IsValue uninitialised

-- The string that the look-up of the key finds in the block.
pub record Stands (end : ℕ) (section : Option Bytes) (key b value : Bytes) : Type 0 where
  pub val : ℕ
  pub behind : Bytes
  pub at_end : Bytes
  pub found : ini_get (end + 1) end section key b ≡ returns (some val) behind
  pub string : string_at (end + 1) val behind ≡ returns value at_end

module _ (scan : Bytes → Option Status) where
  scan-Scanned :
      {IsValue : Bytes → Type 0} (value : Bytes) (r : Option Status)
      → IsValue value
      → scan value ≡ r
      → Scanned scan IsValue (elim r [ none ↦ uninitialised | some n ↦ number n ])
  scan-Scanned value none stands e = untouched value stands e
  scan-Scanned value (some n) stands e = scanned n

  store-Scanned :
      (end : ℕ) (section : Option Bytes) (key b : Bytes) (val : Option ℕ) (b' : Bytes)
      → ini_get (end + 1) end section key b ≡ returns val b'
      → Ensures
          (λ (found, dst) _. found ≡ true → Scanned scan (Stands end section key b) dst)
          (store (end + 1) (some scan) uninitialised val b')
  unfolding store
  store-Scanned end section key b none b' e = returned λ e. cc
  store-Scanned end section key b (some val) b' e =
      Ensures-bind (Ensures-self (string_at (end + 1) val b')) λ value b'' f. returned λ _.
        scan-Scanned value (scan value)
          (record { val = val; behind = b'; at_end = b''; found = e; string = f }) refl

  ini_sget-Scanned :
      (end : ℕ) (section : Option Bytes) (key b : Bytes)
      → Ensures
          (λ (found, dst) _. found ≡ true → Scanned scan (Stands end section key b) dst)
          (ini_sget end section key (some scan) uninitialised b)
  unfolding ini_sget
  ini_sget-Scanned end section key b =
      Ensures-bind (Ensures-self (ini_get (end + 1) end section key b))
        λ val b' e. store-Scanned end section key b val b' e

-- No port, or a variable as `sscanf` leaves it.
abbrev pub IsPort : (Bytes → Option Status) → (Bytes → Type 0) → Option Dst → Type 0
IsPort scan IsValue none = Unit
IsPort scan IsValue (some dst) = Scanned scan IsValue dst

-- The value of a key in the section "ProxyServer" of an `ini_t`.
abbrev pub HasValue : Bytes → Bytes → Bytes → Type 0
HasValue config key = Stands (length config - 1) (some (codes "ProxyServer")) key config

module _ (p : Platform) (h : Host p) where
  -- On an `ini_t` the look-up of a port returns.
  pub sget_port-IsPort :
      (config key : Bytes) (s : Io p)
      → Valid (some config)
      → Returns
          (λ port t. IsPort h.sscanf_d (HasValue config key) port × (t ≡ s))
          (sget_port p h config key s)
  unfolding sget_port
  sget_port-IsPort config key s (end, (size, nul)) =
      let section : Option Bytes = some (codes "ProxyServer") in
      Returns-bind
        (within-Returns p config _ s (
          subst
            (λ e.
              Returns
                (λ (found, dst) b.
                  (b ≡ config)
                  × (found ≡ true → Scanned h.sscanf_d (Stands e section key config) dst))
                (ini_sget e section key (some h.sscanf_d) uninitialised config))
            (omega (arith, size))
            (Returns-Ensures
              (ini_sget-Returns end section key (some h.sscanf_d) uninitialised config (size, nul))
              (ini_sget-Scanned h.sscanf_d end section key config))))
        λ ((found, dst), b) t ((_, port), same). elim (Bool-cases found) [
          | inl stored ↦ rw stored (yields (port stored, same))
          | inr missing ↦ rw missing (yields (tt, same))
        ]
