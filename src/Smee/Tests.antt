-- ===== src/Smee/Tests.antt =====
-- A message that panics.
use tinkerbell.Base.{ℕ, none, List, [], ◌∷◌, ◌≡◌, refl, arith}
use tinkerbell.Smee.Syslog.{Message, Parsed, parse_priority}
use tinkerbell.Smee.Syslog.Priority.{parse_priority-stale}

-- The buffer holds `<34`, and `>hi>` of an earlier message, of which `size` bytes are the message.
abbrev message : ℕ → List ℕ → Message
message n bytes = record {
  buf = bytes;
  size = n;
  priority = 0;
  hostname = none;
  app = none;
  procid = none;
  msgid = none;
  msg = none;
}

abbrev short : Message
short = message 3 (60 ∷ 51 ∷ 52 ∷ 62 ∷ 104 ∷ 105 ∷ 62 ∷ [])

parse_priority-stale_example : parse_priority short ≡ Parsed.panicked
parse_priority-stale_example =
    parse_priority-stale 3 4 (104 ∷ 105 ∷ 62 ∷ []) short (omega arith) (omega arith) refl refl
