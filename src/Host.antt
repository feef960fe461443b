-- ===== src/Host.antt =====
-- What src/main.cc, src/ini.c and the constructor of `Server` call besides `Platform`: the C
-- library's files, memory and conversions, and the set-up of sockets. `World` is shared.
use zmq_proxy.Platform.{Platform, Rc, done, Status, pos}
use zmq_proxy.Prelude.{◌+◌, ◌<◌, ◌^◌, ℕ, ◌≡◌, Option, some, Bytes, length}

pub record Host (p : Platform) : Type 1 where
  pub Context : Type 0
  pub File : Type 0
  -- the values of ZMQ_ROUTER and ZMQ_SNDTIMEO, and the size of `ini_t`
  pub zmq_router : ℕ
  pub zmq_sndtimeo : ℕ
  pub sizeof_ini_t : ℕ
  pub zmq_ctx_new : p.World → Rc Context × p.World
  pub zmq_socket : Context → ℕ → p.World → Rc p.Socket × p.World
  pub zmq_bind : p.Socket → Bytes → p.World → Rc (Unit {0}) × p.World
  -- the option and its `int` value
  pub zmq_setsockopt : p.Socket → ℕ → ℕ → p.World → Rc (Unit {0}) × p.World
  -- a block with unspecified content, or NULL
  pub malloc : ℕ → p.World → Option Bytes × p.World
  pub fopen : Bytes → p.World → Option File × p.World
  -- `fseek` to the end
  pub fseek_end : File → p.World → Unit {0} × p.World
  pub ftell : File → p.World → Status × p.World
  pub rewind : File → p.World → Unit {0} × p.World
  -- the bytes that fread stores, at most as many as asked for
  pub fread : File → ℕ → p.World → Bytes × p.World
  pub fclose : File → p.World → Unit {0} × p.World
  -- `sscanf` with "%d" on a string: the number, or `none` where it stores nothing
  pub sscanf_d : Bytes → Option Status
  pub time : p.World → ℕ × p.World
  -- `std::to_string` of an `int`
  pub to_string : Status → Bytes
  pub srand : ℕ → p.World → Unit {0} × p.World

-- The documented behaviour of the C library that the code relies on.
pub record HostLaws (p : Platform) (h : Host p) : Type 0 where
  pub size_of_malloc :
      (n : ℕ) (w w' : p.World) (b : Bytes) → h.malloc n w ≡ (some b, w') → length b ≡ n

-- A host on which memory does not run out and every open file has a size that, with the NUL behind
-- it, is an `int`.
pub record Roomy (p : Platform) (h : Host p) : Type 0 where
  pub mallocs : (n : ℕ) (w : p.World) → (b : Bytes) × (w' : p.World) × (h.malloc n w ≡ (some b, w'))
  pub sized :
      (fp : h.File) (w : p.World)
      → (n : ℕ) × (w' : p.World) × (n + 1 < 2 ^ 31) × (h.ftell fp w ≡ (pos n, w'))

-- Every file that is opened under the name has the content: `ftell` at its end gives the number of
-- bytes, which is an `int` with one more for a NUL, and `fread` from its start gives all of them.
pub record Contains (p : Platform) (h : Host p) (filename content : Bytes) : Type 0 where
  pub small : length content + 1 < 2 ^ 31
  pub sized :
      (fp : h.File) (v v' w : p.World)
      → h.fopen filename v ≡ (some fp, v')
      → (w' : p.World) × (h.ftell fp (h.fseek_end fp w).1 ≡ (pos (length content), w'))
  pub reads :
      (fp : h.File) (v v' w w' : p.World) (n : ℕ) (b : Bytes)
      → h.fopen filename v ≡ (some fp, v')
      → h.malloc n (h.rewind fp w).1 ≡ (some b, w')
      → (w'' : p.World) × (h.fread fp (length content) w' ≡ (content, w''))

-- A host on which a context is made, and sockets are made, bound and set up without failure.
pub record Opens (p : Platform) (h : Host p) : Type 0 where
  pub makes_context :
      (w : p.World) → (c : h.Context) × (w' : p.World) × (h.zmq_ctx_new w ≡ (done c, w'))
  pub makes_socket :
      (c : h.Context) (type_ : ℕ) (w : p.World)
      → (sock : p.Socket) × (w' : p.World) × (h.zmq_socket c type_ w ≡ (done sock, w'))
  pub binds :
      (sock : p.Socket) (addr : Bytes) (w : p.World)
      → (u : Unit {0}) × (w' : p.World) × (h.zmq_bind sock addr w ≡ (done u, w'))
  pub sets :
      (sock : p.Socket) (option_ optval : ℕ) (w : p.World)
      → (u : Unit {0}) × (w' : p.World) × (h.zmq_setsockopt sock option_ optval w ≡ (done u, w'))
