-- ===== src/Rsp/Tests.antt =====
-- The theorems on packets at concrete ones.
use dimebox.Common.{true, false, ◌≡◌, refl, arith, []}
use dimebox.Outcome.{done, runtime_error}
use dimebox.Rsp.Text.{codes}
use dimebox.Rsp.Packet.{decode, encode, add_up}
use dimebox.Rsp.PacketLaws.{acked}
use dimebox.Rsp.Escape.{escape, packet, sent, decode-escape, decode-sent, decode-encode}

decode-escape_example :
    decode (acked true true (packet (escape (codes "m}")) 0xea)) (codes "+") ≡ done (codes "m}")
unfolding add_up
decode-escape_example = decode-escape true true (codes "m}") (codes "+") 0xea (omega arith)

decode-sent_example : decode (sent (codes "m}")) [] ≡ runtime_error
decode-sent_example = decode-sent (codes "m}") []

decode-encode_example : decode (acked true false (encode (codes "qC"))) [] ≡ done (codes "qC")
decode-encode_example = decode-encode true false (codes "qC") [] refl
