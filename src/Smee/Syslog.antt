-- ===== src/Smee/Syslog.antt =====
-- The parser of syslog messages (smee/internal/syslog/message.go), as far as it does not read times. A
-- byte is a number, and the buffer, which is longer than the message and is used again for the next
-- one, is the list of its bytes.
pub mod Priority
pub mod Timed
pub mod Legacy
pub mod Parse
use tinkerbell.Base.{
  ℕ, suc, ◌+◌, ◌-◌, ◌*◌, ◌%◌, ◌/◌, Bool, true, false, Option, none, some, List, [], ◌∷◌,
  if◌then◌else◌, ltb, leb, eqb, take, drop, ◌||◌, ◌&&◌, not,
}

pub record Message : Type 0 where
  pub buf : List ℕ
  pub size : ℕ
  pub priority : ℕ
  pub hostname : Option (List ℕ)
  pub app : Option (List ℕ)
  pub procid : Option (List ℕ)
  pub msgid : Option (List ℕ)
  pub msg : Option (List ℕ)

-- What a step of the parser comes to; a slice that ends before it begins is a panic.
pub data Parsed : Type 0 where
  accepted refused : Message → Parsed
  panicked : Parsed

-- `Facility` and `Severity`
abbrev pub facility : Message → ℕ
facility m = m.priority / 8

abbrev pub severity : Message → ℕ
severity m = m.priority % 8

-- The loop over the bytes after `<`: the place of `>` and the number before it, in a byte.
unfoldable pub scan : ℕ → ℕ → List ℕ → Option (ℕ × ℕ)
scan i pri [] = none
scan i pri (c ∷ cs) =
    let rest = scan (suc i) ((pri * 10 + c + 208) % 256) cs in
    if eqb c 62 then some (i, pri) else (if ltb c 48 || ltb 57 c then none else rest)

abbrev starts_with : ℕ → List ℕ → Bool
starts_with x [] = false
starts_with x (c ∷ cs) = eqb c x

unfoldable pub closed_at : Message → Option (ℕ × ℕ) → Parsed
closed_at m none = Parsed.refused m
closed_at m (some (i, pri)) =
    if leb (i + 2) m.size
    then Parsed.accepted
        (record m { priority = pri; msg = some (take (m.size - (i + 2)) (drop (i + 2) m.buf)) })
    else Parsed.panicked

-- `parsePriority`
unfoldable pub parse_priority : Message → Parsed
parse_priority m =
    if ltb m.size 3 || not (starts_with 60 m.buf)
    then Parsed.refused m
    else closed_at m (scan 0 0 (take 4 (drop 1 m.buf)))

-- `reset`
abbrev pub reset : Message → Message
reset m = record m {
  priority = 0;
  hostname = none;
  app = none;
  procid = none;
  msgid = none;
  msg = none;
}
