-- ===== src/Ini/Format/Loading.antt =====
-- src/ini.c: `ini_load` on a file of the format.
use zmq_proxy.Cmd.{undef, Ensures, returned, Ensures-behind}
use zmq_proxy.Host.{Contains, Host, HostLaws}
use zmq_proxy.Ini.Buffer.{write}
use zmq_proxy.Ini.Format.{Entry, print, cut, IsPlain}
use zmq_proxy.Ini.Format.Document.{split_data-print}
use zmq_proxy.Ini.Load.{load_sized, load_file, load_opened, ini_load, within, load_block}
use zmq_proxy.Ini.Safety.Loading.{int_of-fits, overlay-full, write-Ended, within-Returns}
use zmq_proxy.Platform.{Frame, pos, Platform, Io, query}
use zmq_proxy.Prelude.{
  ◌∙◌, suc, ◌+◌, ◌≡◌, true, List, [], ◌∷◌, ◌++◌, Option, some, Bytes, All, length, ◌==◌, arith,
  none, refl, lt→ltb,
}

module _ (p : Platform) (h : Host p) (laws : HostLaws p h) (es : List Entry)
    (plain : All IsPlain es) where
  -- NULL, or the strings of the entries.
  abbrev HoldsCut : Option Bytes → Type 0
  HoldsCut ini = (config : Bytes) → ini ≡ some config → config ≡ cut es ++ 0 ∷ []

  same_size : (length (print es) == length (print es)) ≡ true
  same_size = ground arith

  load_block-print :
      (fp : h.File) (data_ : Bytes) (s : Io p) (w : p.World)
      → length data_ ≡ suc (length (print es))
      → h.fread fp (length (print es)) s.world ≡ (print es, w)
      → Ensures (λ ini _. HoldsCut ini) (load_block p h fp (length (print es)) data_ s)
  unfolding load_block query within
  load_block-print fp data_ s w size whole =
      Ensures-behind
        (within-Returns p data_ (write (length (print es)) 0) s
          (write-Ended data_ (length (print es)) size))
        λ r t (ended, same).
          rw
            (
              same,
              whole,
              same_size,
              overlay-full (print es) r.1 ended,
              split_data-print es (length (print es) + 1) plain (omega arith),
            )
            (returned λ config e. cc)

  module _ (filename : Bytes) (contains : Contains p h filename (print es)) where
    load_file-print :
        (fp : h.File) (v v' : p.World) (s : Io p)
        → h.fopen filename v ≡ (some fp, v')
        → Ensures (λ ini _. HoldsCut ini) (load_file p h fp s)
    unfolding load_file load_sized query
    load_file-print fp v v' s open_ =
        let (w, sized) = contains.sized fp v v' s.world open_ in
        by_malloc w sized (h.malloc (length (print es) + 1) (h.rewind fp w).1) refl
      where
        by_malloc :
            (w : p.World)
            → h.ftell fp (h.fseek_end fp s.world).1 ≡ (pos (length (print es)), w)
            → (r : Option Bytes × p.World) → h.malloc (length (print es) + 1) (h.rewind fp w).1 ≡ r
            → Ensures (λ ini _. HoldsCut ini) (load_file p h fp s)
        by_malloc w sized (none, w') e =
            rw (sized, int_of-fits contains.small, lt→ltb _ _ contains.small, e) undef
        by_malloc w sized (some b, w') e =
            let (w'', whole) = contains.reads fp v v' w w' (length (print es) + 1) b open_ e in
            rw (sized, int_of-fits contains.small, lt→ltb _ _ contains.small, e)
              (load_block-print fp b (record s { world = w' }) w''
                (laws.size_of_malloc _ _ w' b e ∙ omega arith) whole)

    -- `ini_load` on a file of the format makes a block with the strings of its entries, or NULL.
    pub ini_load-print : (s : Io p) → Ensures (λ ini _. HoldsCut ini) (ini_load p h filename s)
    unfolding ini_load load_opened query
    ini_load-print s = by_malloc (h.malloc h.sizeof_ini_t s.world) refl
      where
        by_open :
            (v : p.World) (o : Option h.File × p.World)
            → h.fopen filename v ≡ o
            → (sent_ : List (Frame p.Socket))
            → Ensures
                (λ ini _. HoldsCut ini)
                (load_opened p h
                  (h.fopen filename v).0
                  (record { world = (h.fopen filename v).1; sent = sent_ }))
        by_open v (none, v') e sent_ = rw e (returned λ config f. cc)
        by_open v (some fp, v') e sent_ = rw e (load_file-print fp v v' _ e)

        by_malloc :
            (r : Option Bytes × p.World)
            → h.malloc h.sizeof_ini_t s.world ≡ r
            → Ensures (λ ini _. HoldsCut ini) (ini_load p h filename s)
        by_malloc (none, w) e = rw e (returned λ config f. cc)
        by_malloc (some b, w) e = rw e (by_open w (h.fopen filename w) refl s.sent)
