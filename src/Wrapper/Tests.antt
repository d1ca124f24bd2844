-- ===== src/Wrapper/Tests.antt =====
-- Runs of protocol/__init__.py on small packages.
use hypercorn.Prelude.{false, Option, none, some, [], ◌∷◌, ◌++◌, String, length, drop}
use hypercorn.Prelude.Bytes.{Bytes, ascii}
use hypercorn.Exec.{◌>>◌}
use hypercorn.H11.Package.{H11, Request, request, idle}
use hypercorn.H11.Reading.{h2_preface}
use hypercorn.Wrapper.{Configs}

abbrev preface_request : Request
preface_request = record {
  method = ascii "PRI";
  target = ascii "*";
  http_version = ascii "2.0";
  headers = [];
  raw_items = [];
}

-- An h11 that reads the first eighteen bytes as the preface.
abbrev prefaced : H11 Bytes
prefaced = record {
  new = [];
  receive_data = λ c d. c ++ d;
  next_event = λ c. (request preface_request, drop 18 c);
  events_left = length;
  send = λ c e. (none, c);
  start_next_cycle = λ c. none;
  our_state = λ c. idle;
  their_state = λ c. idle;
  trailing_data = λ c. c;
  waits_for_100 = λ c. false;
}

abbrev decode : Bytes → Option String
decode b = some "GET"

abbrev configs : Configs
configs = record {
  h11 = record { response_headers = []; keep_alive_max_requests = 1; pass_raw_headers = false };
  h2 = record { response_headers = []; keep_alive_max_requests = 5 };
}

-- The preface, then two bytes.
abbrev begun : Bytes
begun = h2_preface ++ 3 ∷ 4 ∷ []
