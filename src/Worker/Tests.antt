-- ===== src/Worker/Tests.antt =====
-- A worker with a limit of two requests.
use hypercorn.Prelude.{◌≡◌, some}
use hypercorn.Worker.Limit.{marked, is_past, marked-is_past}

marked-is_past_example : (marked 3 (some 2)).terminate ≡ is_past (some 2) 3
marked-is_past_example = marked-is_past (some 2) 3
