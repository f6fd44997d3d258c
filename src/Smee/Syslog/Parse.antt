-- ===== src/Smee/Syslog/Parse.antt =====
-- The parser of messages (`parse` of smee/internal/syslog/message.go), with the version and the header of
-- RFC 5424.
pub mod Header
mod Tests
use tinkerbell.Base.{
  ℕ, zero, suc, ◌+◌, ◌-◌, ◌*◌, ◌/◌, ◌%◌, ℤ, pos, negsuc, Bool, true, false, Option, none, some,
  List, [], ◌∷◌, ◌++◌, if◌then◌else◌, ltb, leb, eqb, take, drop, length, ◌||◌, ◌&&◌, not,
}
use tinkerbell.Smee.Syslog.{Message, Parsed, parse_priority}
use tinkerbell.Smee.Syslog.Timed.{Times, Timed, bytes_of, cut_at, set_msg}
use tinkerbell.Smee.Syslog.Legacy.{parse_legacy_header}

pub data Outcome (T : Type 0) : Type 0 where
  accepted refused : Timed T → Outcome T
  panicked : Outcome T

-- `ignoreNil`
abbrev pub ignore_nil : List ℕ → Option (List ℕ)
ignore_nil [] = some []
ignore_nil (x ∷ y ∷ ys) = some (x ∷ y ∷ ys)
ignore_nil (x ∷ []) = if eqb x b'-' then none else some (x ∷ [])

-- Two bytes at the front, taken off.
unfoldable pub after_two : ℕ → ℕ → List ℕ → Option (List ℕ)
after_two a b [] = none
after_two a b (x ∷ []) = none
after_two a b (x ∷ y ∷ rest) = if eqb y b && eqb x a then some rest else none

-- `parseVersion`: the message after the version, if it is there.
unfoldable pub parse_version : Message → Option Message
parse_version m = elim (after_two b'1' b' ' (bytes_of m.msg)) [
  | none ↦ none
  | some rest ↦ some (set_msg rest m)
]

-- `parseStructuredData`
unfoldable pub parse_structured_data : Message → Option Message
parse_structured_data m = elim (after_two b'-' b' ' (bytes_of m.msg)) [
  | none ↦ none
  | some rest ↦ some (set_msg rest m)
]

module _ {T : Type 0} (c : Times T) where
  abbrev is_nil : List ℕ → Bool
  is_nil b = elim (ignore_nil b) [ none ↦ true | some _ ↦ false ]

  -- `parseTimestamp`
  unfoldable pub parse_timestamp : List ℕ → T → Option T
  parse_timestamp b old =
      if is_nil b then some old else (if ltb 32 (length b) then none else c.parse_rfc3339 b)

  infixl 5 ◌>>=◌
  abbrev pub ◌>>=◌ : {A B : Type 0} → Option A → (A → Option B) → Option B
  none >>= f = none
  some x >>= f = f x

  -- `parseHeader`: five fields that end in a space, the first a time, and the message.
  unfoldable pub parse_header : Timed T → Option (Timed T)
  parse_header m = do
    (stamp, r₁) ← cut_at b' ' (bytes_of m.message.msg)
    (host, r₂) ← cut_at b' ' r₁
    (app, r₃) ← cut_at b' ' r₂
    (procid, r₄) ← cut_at b' ' r₃
    (msgid, rest) ← cut_at b' ' r₄
    t ← parse_timestamp stamp m.time
    some (record {
      message = record m.message {
        hostname = ignore_nil host;
        app = ignore_nil app;
        procid = ignore_nil procid;
        msgid = ignore_nil msgid;
        msg = some rest;
      };
      time = t;
    })

  structured : Timed T → Option (Timed T) → Outcome T
  structured m none = Outcome.refused m
  structured m (some m') = elim (parse_structured_data m'.message) [
    | none ↦ Outcome.refused m'
    | some read ↦ Outcome.accepted (record m' { message = read })
  ]

  versioned : Timed T → Option Message → Outcome T
  unfolding structured
  versioned m none = Outcome.accepted (parse_legacy_header c m)
  versioned m (some read) = let m' = record m { message = read } in structured m' (parse_header m')

  prioritised : T → Parsed → Outcome T
  unfolding versioned
  prioritised t Parsed.panicked = Outcome.panicked
  prioritised t (Parsed.refused m) = Outcome.refused (record { message = m; time = t })
  prioritised t (Parsed.accepted m) = versioned (record { message = m; time = t }) (parse_version m)

  -- `parse`
  unfoldable pub parse : Timed T → Outcome T
  unfolding prioritised
  parse m = prioritised m.time (parse_priority m.message)
