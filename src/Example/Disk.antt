-- ===== src/Example/Disk.antt =====
-- A concrete host: one file that may be there, memory that does not run out, sockets numbered in the
use zmq_proxy.Platform.{negsuc}
-- order in which they are made, and a record of what is bound. It meets the laws.
use zmq_proxy.Example.{scripted, zeros, length-zeros, Script}
use zmq_proxy.Example.Busy.{busy}
use zmq_proxy.Host.{Host, HostLaws, Roomy, Opens, Contains}
use zmq_proxy.Platform.{Status, pos, done}
use zmq_proxy.Prelude.{
  ℕ, suc, ◌+◌, ◌-◌, ◌*◌, refl, sym, ap, ◌∙◌, ◌&&◌, Option, none, some, [], ◌∷◌, ◌++◌, Bytes, length,
  leb, if◌then◌else◌, zero, ◌/◌, ◌%◌, ◌^◌, ◌<◌, ltb,
}

abbrev so_far : Option ℕ → ℕ
so_far none = 0
so_far (some n) = n

-- The number that a string of digits begins with.
abbrev scan : Option ℕ → Bytes → Option Status
scan none [] = none
scan (some n) [] = some (pos n)
scan acc (c ∷ s) =
    if leb b'0' c && leb c b'9'
    then scan (some (so_far acc * 10 + (c - b'0'))) s
    else elim acc [ none ↦ none | some n ↦ some (pos n) ]

-- The decimal digits of a number, with fuel for their count.
unfoldable pub digits : ℕ → ℕ → Bytes
digits zero n = (b'0' + n) ∷ []
digits (suc fuel) n =
    let front = digits fuel (n / 10) in
    if ltb n 10 then (b'0' + n) ∷ [] else front ++ (b'0' + n % 10) ∷ []

unfoldable pub decimal : Status → Bytes
decimal (pos n) = digits n n
decimal (negsuc n) = b'-' ∷ digits (n + 1) (n + 1)

abbrev opened : Option Bytes → Option (Unit {0})
opened none = none
opened (some content) = some tt

abbrev content_of : Option Bytes → Bytes
content_of none = []
content_of (some content) = content

abbrev pub disk : Option Bytes → Host scripted
disk file = record {
  Context = Unit;
  File = Unit;
  zmq_router = 6;
  zmq_sndtimeo = 28;
  sizeof_ini_t = 16;
  zmq_ctx_new = λ w. (done tt, w);
  zmq_socket = λ context type w. (done w.made, record w { made = suc w.made });
  zmq_bind = λ sock addr w. (done tt, record w { bound = w.bound ++ (sock, addr) ∷ [] });
  zmq_setsockopt = λ sock option value w. (done tt, w);
  malloc = λ n w. (some (zeros n), w);
  fopen = λ name w. (opened file, w);
  fseek_end = λ fp w. (tt, w);
  ftell = λ fp w. (pos (length (content_of file)), w);
  rewind = λ fp w. (tt, w);
  fread = λ fp n w. (content_of file, w);
  fclose = λ fp w. (tt, w);
  sscanf_d = scan none;
  to_string = decimal;
  time = λ w. (0, w);
  srand = λ seed w. (tt, w);
}

abbrev block_of : Option Bytes × Script → Bytes
block_of (some b, w) = b
block_of (none, w) = []

pub disk-laws : (file : Option Bytes) → HostLaws scripted (disk file)
disk-laws file = record {
  size_of_malloc = λ n w w' b e. sym (ap (λ r. length (block_of r)) e) ∙ length-zeros n;
}

pub disk-Roomy :
    (file : Option Bytes) → length (content_of file) + 1 < 2 ^ 31 → Roomy scripted (disk file)
disk-Roomy file small = record {
  mallocs = λ n w. (zeros n, w, refl);
  sized = λ fp w. (length (content_of file), w, small, refl);
}

pub disk-Contains :
    (filename content : Bytes)
    → length content + 1 < 2 ^ 31
    → Contains scripted (disk (some content)) filename content
disk-Contains filename content small = record {
  small = small;
  sized = λ fp v v' w e. (w, refl);
  reads = λ fp v v' w w' n b e _. (w', refl);
}

-- The same host beside a platform whose peers keep sending.
abbrev pub busy_disk : Option Bytes → Host busy
busy_disk file =
    let host = disk file in
    record {
      Context = Unit;
      File = Unit;
      zmq_router = host.zmq_router;
      zmq_sndtimeo = host.zmq_sndtimeo;
      sizeof_ini_t = host.sizeof_ini_t;
      zmq_ctx_new = host.zmq_ctx_new;
      zmq_socket = host.zmq_socket;
      zmq_bind = host.zmq_bind;
      zmq_setsockopt = host.zmq_setsockopt;
      malloc = host.malloc;
      fopen = host.fopen;
      fseek_end = host.fseek_end;
      ftell = host.ftell;
      rewind = host.rewind;
      fread = host.fread;
      fclose = host.fclose;
      sscanf_d = host.sscanf_d;
      to_string = host.to_string;
      time = host.time;
      srand = host.srand;
    }

pub busy_disk-laws : (file : Option Bytes) → HostLaws busy (busy_disk file)
busy_disk-laws file = record {
  size_of_malloc = λ n w w' b e. sym (ap (λ r. length (block_of r)) e) ∙ length-zeros n;
}

pub busy_disk-Roomy :
    (file : Option Bytes) → length (content_of file) + 1 < 2 ^ 31 → Roomy busy (busy_disk file)
busy_disk-Roomy file small = record {
  mallocs = λ n w. (zeros n, w, refl);
  sized = λ fp w. (length (content_of file), w, small, refl);
}

pub busy_disk-Opens : (file : Option Bytes) → Opens busy (busy_disk file)
busy_disk-Opens file = record {
  makes_context = λ w. (tt, w, refl);
  makes_socket = λ c type_ w. (w.made, record w { made = suc w.made }, refl);
  binds = λ sock addr w. (tt, record w { bound = w.bound ++ (sock, addr) ∷ [] }, refl);
  sets = λ sock option_ optval w. (tt, w, refl);
}
