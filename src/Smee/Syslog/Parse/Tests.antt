-- ===== src/Smee/Syslog/Parse/Tests.antt =====
-- The parser of messages at concrete buffers. A time is a number of nanoseconds.
use tinkerbell.Base.{
  ℕ, ◌+◌, ◌-◌, pos, false, none, some, List, [], ◌∷◌, ◌++◌, ◌≡◌, refl, arith, length,
}
use tinkerbell.Smee.Syslog.{Message, parse_priority, scan, closed_at}
use tinkerbell.Smee.Syslog.Priority.{text_of}
use tinkerbell.Smee.Syslog.Timed.{Times, Timed, cut_at, trim_prefix}
use tinkerbell.Smee.Syslog.Legacy.{parse_legacy_header, parse_legacy_tag, span_tag, trimmed}
use tinkerbell.Smee.Syslog.Parse.{Outcome, parse, parse_timestamp, parse_version, after_two}
use tinkerbell.Smee.Syslog.Parse.Header.{header, parse-header}

abbrev times : Times ℕ
times = record {
  parse_stamp = λ b. none;
  parse_rfc3339 = λ b. some (length b);
  is_zero = λ t. false;
  year = λ t. pos 0;
  add_years = λ n t. t;
  sub = λ a b. pos (a - b);
  add = λ t n. t + n;
  format = λ t. [];
}

abbrev message : List ℕ → ℕ → Message
message bytes n = record {
  buf = bytes;
  size = n;
  priority = 0;
  hostname = none;
  app = none;
  procid = none;
  msgid = none;
  msg = none;
}

-- "-", "h", "app", "1" and "up"
abbrev nothing : List ℕ
nothing = 45 ∷ []

abbrev host : List ℕ
host = 104 ∷ []

abbrev app : List ℕ
app = 97 ∷ 112 ∷ 112 ∷ []

abbrev text : List ℕ
text = 117 ∷ 112 ∷ []

-- `<34>1 - h app - - - up`, with a byte of an earlier message behind it.
abbrev line : Timed ℕ
line = record {
  message =
      message
        (60
          ∷ (text_of (3 ∷ 4 ∷ [])
              ++ (62 ∷ (header nothing host app nothing nothing text ++ (62 ∷ [])))))
        22;
  time = 7;
}

time_is_kept : parse_timestamp times nothing 7 ≡ some 7
unfolding parse_timestamp
time_is_kept = refl

parse-header_example :
    parse times line
    ≡ Outcome.accepted (record {
      message = record line.message {
        priority = 34;
        hostname = some host;
        app = some app;
        procid = none;
        msgid = none;
        msg = some text;
      };
      time = 7;
    })
parse-header_example =
    parse-header times (3 ∷ 4 ∷ []) nothing host app nothing nothing text (62 ∷ []) line 7
      (omega arith, (omega arith, tt)) (omega arith) (omega arith) (omega arith, tt)
      (omega arith, tt) (omega arith, (omega arith, (omega arith, tt))) (omega arith, tt)
      (omega arith, tt) time_is_kept refl refl

-- `<34>app[1]: up`
legacy_is_read :
    parse times (record {
      message =
          message (60 ∷ 51 ∷ 52 ∷ 62 ∷ 97 ∷ 112 ∷ 112 ∷ 91 ∷ 49 ∷ 93 ∷ 58 ∷ 32 ∷ 117 ∷ 112 ∷ []) 14;
      time = 7;
    })
    ≡ Outcome.accepted (record {
      message =
          record (message
            (60 ∷ 51 ∷ 52 ∷ 62 ∷ 97 ∷ 112 ∷ 112 ∷ 91 ∷ 49 ∷ 93 ∷ 58 ∷ 32 ∷ 117 ∷ 112 ∷ [])
            14) { priority = 34; app = some app; procid = some (49 ∷ []); msg = some text };
      time = 7;
    })
unfolding parse parse_priority scan closed_at parse_version after_two parse_legacy_header
    parse_legacy_tag span_tag cut_at trimmed trim_prefix
legacy_is_read = refl
