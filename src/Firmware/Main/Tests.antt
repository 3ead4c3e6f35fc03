-- ===== src/Firmware/Main/Tests.antt =====
-- `main` of firmware/src/main.rs over small instruments.
use flip_link.Base.{
  ℕ, ◌+◌, ◌≡◌, refl, Bool, true, false, List, [], ◌∷◌, Option, none, some, pos, negsuc,
}
use flip_link.Base.Results.{ok}
use flip_link.Proto.Bytes.{Bytes}
use flip_link.Proto.Messages.{Req}
use flip_link.Firmware.Loop.{Instruments, Received, nothing, round}
use flip_link.Firmware.Main.{is_over, main}

abbrev quiet : Instruments ℕ
quiet = record {
  run = λ handler params w. (ok params, w);
  ir_start = λ seq w. (w, []);
  subghz_start = λ seq params w. (w, []);
  stop_captures = λ w. (w + 1, []);
  capturing = λ w. false;
  drain_captures = λ w. (w, []);
}

abbrev unreadable : Bytes → Option Req
unreadable payload = none

-- Back is pressed in the second round.
abbrev rounds : List (Bool × Received)
rounds = (true, nothing) ∷ (false, nothing) ∷ []

results :
    ((main quiet unreadable true true rounds 0).1 ≡ some (pos 0))
    × ((main quiet unreadable true true [] 0).1 ≡ none)
    × ((main quiet unreadable true false [] 0).1 ≡ some (negsuc 0))
unfolding main is_over round
results = (refl, refl, refl)
