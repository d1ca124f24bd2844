-- ===== src/Wire.antt =====
-- events.py: what a protocol and the server around it tell each other.
use hypercorn.Prelude.{Bool}
use hypercorn.Prelude.Bytes.{Bytes}

-- The classes RawData, Closed and Updated. The address of a datagram is left out.
pub data WireEvent : Type 0 where
  raw_data : Bytes → WireEvent
  shut : WireEvent
  updated : Bool → WireEvent
