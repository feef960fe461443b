-- ===== src/Example/Config.antt =====
-- A configuration file like config.ini of the repository.
use zmq_proxy.Ini.Format.{
  comment, blank, Entry, header, setting, IsKey, IsValue, IsPlain, ends_name, ends_key, ends_value,
}
use zmq_proxy.Ini.Format.Strings.{no_byte-All}
use zmq_proxy.Prelude.{refl, ◌||◌, List, [], ◌∷◌, codes, All, ◌==◌}

abbrev pub ports : List Entry
ports =
    header (codes "ProxyServer")
    ∷ comment (codes "the ports of the proxy")
    ∷ setting (codes "front_port") (codes "9999")
    ∷ blank
    ∷ setting (codes "back_port") (codes "9998")
    ∷ []

front_IsKey : IsKey (codes "front_port")
front_IsKey = record {
  first = b'f';
  more = codes "ront_port";
  position = refl;
  no_space = refl;
  no_header = refl;
  no_comment = refl;
  passes = no_byte-All (λ c. c == 0 || ends_key c) (codes "front_port") refl;
  closed = record { front = codes "front_por"; last = b't'; position = refl; solid = refl };
}

back_IsKey : IsKey (codes "back_port")
back_IsKey = record {
  first = b'b';
  more = codes "ack_port";
  position = refl;
  no_space = refl;
  no_header = refl;
  no_comment = refl;
  passes = no_byte-All (λ c. c == 0 || ends_key c) (codes "back_port") refl;
  closed = record { front = codes "back_por"; last = b't'; position = refl; solid = refl };
}

front_IsValue : IsValue (codes "9999")
front_IsValue = record {
  first = b'9';
  more = codes "999";
  position = refl;
  no_blank = refl;
  no_quote = refl;
  passes = no_byte-All (λ c. c == 0 || ends_value c) (codes "9999") refl;
  closed = record { front = codes "999"; last = b'9'; position = refl; solid = refl };
}

back_IsValue : IsValue (codes "9998")
back_IsValue = record {
  first = b'9';
  more = codes "998";
  position = refl;
  no_blank = refl;
  no_quote = refl;
  passes = no_byte-All (λ c. c == 0 || ends_value c) (codes "9998") refl;
  closed = record { front = codes "999"; last = b'8'; position = refl; solid = refl };
}

pub ports-IsPlain : All IsPlain ports
ports-IsPlain = (
  no_byte-All (λ c. c == 0 || ends_name c) (codes "ProxyServer") refl,
  (
    no_byte-All (λ c. c == 0 || ends_value c) (codes "the ports of the proxy") refl,
    ((front_IsKey, front_IsValue), (tt, ((back_IsKey, back_IsValue), tt))),
  ),
)
