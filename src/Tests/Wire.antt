-- ===== src/Tests/Wire.antt =====
-- Sending and receiving: the theorems at concrete inputs.
use zmq_proxy.Multipart.Copies.{equal_iff}
use zmq_proxy.Multipart.Ends.{pushtyp-poptyp}
use zmq_proxy.Multipart.Content.{equal, pushtyp, poptyp}
use zmq_proxy.Example.{Part, scripted-laws}
use zmq_proxy.Cmd.{pure, throw, runtime_error}
use zmq_proxy.Prelude.{ℕ, ◌↔◌, map, List, if◌then◌else◌, ◌==◌}
use zmq_proxy.Cmd.{Returns, returns}
use zmq_proxy.Example.{
  scripted, scripted-Memory, scripted-Reliable, Script, quiet, io, final, followed, front_socket,
}
use zmq_proxy.Multipart.Transfer.{recv, send}
use zmq_proxy.Multipart.Wire.{last, next, frames, recv-Delivers, send-frames}
use zmq_proxy.Platform.{no_flags}
use zmq_proxy.Prelude.{◌≡◌, refl, true, [], ◌∷◌, codes, arith}

abbrev waiting : Script
waiting = record quiet { front = followed (codes "a") ∷ final (codes "b") ∷ final (codes "c") ∷ [] }

-- The third frame begins another message.
recv-Delivers_example :
    recv scripted 2 front_socket no_flags (io waiting)
    ≡ returns
        (true, followed (codes "a") ∷ final (codes "b") ∷ [])
        (io (record waiting { front = final (codes "c") ∷ [] }))
recv-Delivers_example = recv-Delivers scripted 2 [] (next refl refl (last refl refl)) (omega arith)

send-frames_example :
    Returns
      (λ (ok, rest) t.
        (ok ≡ true) × (rest ≡ []) × (t.sent ≡ frames front_socket (codes "a" ∷ codes "b" ∷ [])))
      (send scripted front_socket no_flags (final (codes "a") ∷ final (codes "b") ∷ []) (io quiet))
send-frames_example =
    send-frames scripted scripted-Reliable front_socket no_flags
      (final (codes "a") ∷ final (codes "b") ∷ []) (io quiet)

abbrev one_two : List Part
one_two = final (codes "1") ∷ final (codes "2") ∷ []

abbrev three_four : List Part
three_four = final (codes "3") ∷ final (codes "4") ∷ []

equal_iff_example :
    (equal scripted one_two three_four ≡ true)
    ↔ (map (λ m. m.bytes) one_two ≡ map (λ m. m.bytes) three_four)
equal_iff_example = equal_iff scripted one_two three_four

pushtyp-poptyp_example :
    Returns
      (λ parts' t.
        (n : ℕ)
        → poptyp scripted n parts' t
          ≡ (if n == 4 then pure (0 ∷ 0 ∷ 0 ∷ 65 ∷ [], one_two) else throw runtime_error) t)
      (pushtyp scripted (0 ∷ 0 ∷ 0 ∷ 65 ∷ []) one_two (io quiet))
pushtyp-poptyp_example =
    pushtyp-poptyp scripted scripted-laws scripted-Memory (0 ∷ 0 ∷ 0 ∷ 65 ∷ []) one_two (io quiet)
