-- ===== src/Chaos/Packet/Examples.antt =====
-- A request for connection with three bytes of data, laid out and read back.
use muir.Base.{[], ◌∷◌, ◌≡◌, refl, arith}
use muir.Chaos.Packet.{Packet, ok, too_short, from_buffer, to_buffer}
use muir.Chaos.Packet.RoundTrip.{IsPacket, from_buffer-to_buffer}

abbrev status_request : Packet
status_request = record {
  opcode = 1;
  forward = 0;
  dest = 0o3060;
  dest_index = 0;
  source = 0o3050;
  source_index = 0o21;
  number = 1;
  ack = 0;
  bytes = 83 ∷ 84 ∷ 65 ∷ [];
}

status_request-IsPacket : IsPacket status_request
status_request-IsPacket = record {
  opcode_fits = omega arith;
  forward_fits = omega arith;
  count_fits = omega arith;
  bytes_fit = (omega arith, (omega arith, (omega arith, tt)));
}

short : from_buffer (1 ∷ 2 ∷ []) ≡ too_short 2
unfolding from_buffer
short = refl

from_buffer-to_buffer_example :
    from_buffer (to_buffer status_request 0o3060) ≡ ok status_request 0o3060
from_buffer-to_buffer_example = from_buffer-to_buffer status_request 0o3060 status_request-IsPacket
