-- ===== src/H11/Toy.antt =====
-- A small h11 for the runs: each byte is an event, of which the first is a request.
use hypercorn.Prelude.{
  ℕ, zero, suc, ◌<◌, ◌≤◌, ◌≡◌, ◌≢◌, refl, Bool, true, false, some, List, [], ◌∷◌, ◌++◌, length,
  arith,
}
use hypercorn.Prelude.Bytes.{Bytes, Headers, ascii}
use hypercorn.Events.{Event}
use hypercorn.Exec.{ok}
use hypercorn.Streams.{Streams}
use hypercorn.H11.Package.{
  H11, Side, idle, done, Request, Received, request, data_received, need_data,
}
use hypercorn.H11.Laws.{StateLaws, EventLaws, is_consumed}

abbrev pub asking : Headers → Request
asking headers = record {
  method = ascii "GET";
  target = ascii "/";
  http_version = ascii "1.1";
  headers = headers;
  raw_items = headers;
}

-- The bytes that are left, and whether a request has been read.
abbrev pub Toy : Type 0
Toy = Bytes × Bool

abbrev toy_next : Headers → Toy → Received × Toy
toy_next headers ([], busy) = (need_data, ([], busy))
toy_next headers (b ∷ bs, false) = (request (asking headers), (bs, true))
toy_next headers (b ∷ bs, true) = (data_received (b ∷ []), (bs, true))

abbrev toy_side : Toy → Side
toy_side (bs, true) = done
toy_side (bs, false) = idle

abbrev pub toy : Headers → H11 Toy
toy headers = record {
  new = ([], false);
  receive_data = λ (bs, busy) d. (bs ++ d, busy);
  next_event = toy_next headers;
  events_left = λ (bs, busy). length bs;
  send = λ c e. (some (9 ∷ []), c);
  start_next_cycle = λ (bs, busy). some (bs, false);
  our_state = toy_side;
  their_state = toy_side;
  trailing_data = λ (bs, busy). bs;
  waits_for_100 = λ c. false;
}

-- A stream that counts its events, and answers the first with a response and its end.
abbrev toy_sends : ℕ → List Event
toy_sends zero = Event.response 1 [] 200 ∷ Event.end_body 1 ∷ []
toy_sends (suc n) = []

abbrev pub counting : Streams ℕ
counting = record {
  new_http = λ i. 0;
  new_websocket = λ i. 0;
  handle = λ n e. record { result = ok tt; sends = toy_sends n; stream = suc n };
  close = λ n. n;
}

toy_request_idle :
    (headers : Headers) (c : Toy) (r : Request)
    → (toy_next headers c).0 ≡ request r
    → toy_side c ≡ idle
toy_request_idle headers ([], busy) r e = absurd cc
toy_request_idle headers (b ∷ bs, false) r e = refl
toy_request_idle headers (b ∷ bs, true) r e = absurd cc

toy_request_busy :
    (headers : Headers) (c : Toy) (r : Request)
    → (toy_next headers c).0 ≡ request r
    → toy_side (toy_next headers c).1 ≢ idle
toy_request_busy headers ([], busy) r e = absurd cc
toy_request_busy headers (b ∷ bs, busy) r e = toy_after headers b bs busy
  where
    toy_after :
        (headers : Headers) (b : ℕ) (bs : Bytes) (busy : Bool)
        → toy_side (toy_next headers (b ∷ bs, busy)).1 ≢ idle
    toy_after headers b bs true = λ d. cc
    toy_after headers b bs false = λ d. cc

toy_next_busy :
    (headers : Headers) (c : Toy) → toy_side c ≢ idle → toy_side (toy_next headers c).1 ≢ idle
toy_next_busy headers ([], busy) n = n
toy_next_busy headers (b ∷ bs, false) n = λ d. cc
toy_next_busy headers (b ∷ bs, true) n = n

toy_receive_busy :
    (bs d : Bytes) (busy : Bool) → toy_side (bs, busy) ≢ idle → toy_side (bs ++ d, busy) ≢ idle
toy_receive_busy bs d true n = n
toy_receive_busy bs d false n = n

toy_next_fewer :
    (headers : Headers) (c : Toy)
    → is_consumed (toy_next headers c).0 ≡ true
    → length (toy_next headers c).1.0 < length c.0
toy_next_fewer headers ([], busy) e = absurd (ground arith)
toy_next_fewer headers (b ∷ bs, false) e = omega arith
toy_next_fewer headers (b ∷ bs, true) e = omega arith

toy_cycle_fewer : (bs : Bytes) (c : Toy) → some (bs, false) ≡ some c → length c.0 ≤ length bs
toy_cycle_fewer bs c e = ground arith

pub toy_states : (headers : Headers) → StateLaws (toy headers)
toy_states headers = record {
  request_idle = toy_request_idle headers;
  request_busy = toy_request_busy headers;
  next_busy = toy_next_busy headers;
  receive_busy = λ (bs, busy) d n. toy_receive_busy bs d busy n;
  send_busy = λ c e n. n;
}

pub toy_events : (headers : Headers) → EventLaws (toy headers)
toy_events headers = record {
  next_fewer = toy_next_fewer headers;
  send_fewer = λ c e. omega arith;
  cycle_fewer = λ (bs, busy) d e. toy_cycle_fewer bs d e;
}
