-- ===== src/Smee/Syslog/Parse/Header.antt =====
-- A message that begins as RFC 5424 has it, read field by field.
use tinkerbell.Base.{
  ℕ, ◌+◌, ◌%◌, ◌<◌, some, List, [], ◌∷◌, ◌++◌, ◌≡◌, ◌≢◌, refl, arith, All, length,
}
use tinkerbell.Smee.Syslog.Priority.{Digits, text_of, number, parse_priority-text_of}
use tinkerbell.Smee.Syslog.Timed.{Times, Timed, cut_at, bytes_of}
use tinkerbell.Smee.Syslog.Parse.{
  Outcome, ignore_nil, after_two, parse_version, parse_structured_data, parse_timestamp,
  parse_header, structured, versioned, prioritised, parse,
}

-- Bytes without a space.
abbrev pub Unspaced : List ℕ → Type 0
Unspaced xs = All (λ x. x ≢ b' ') xs

cut_at-append :
    (xs rest : List ℕ) → Unspaced xs → cut_at b' ' (xs ++ (b' ' ∷ rest)) ≡ some (xs, rest)
unfolding cut_at
cut_at-append [] rest h = refl
cut_at-append (x ∷ xs) rest h = ground (arith, h.0, cut_at-append xs rest h.1)

-- `1 ` and six fields, of which the last is the structured data that says that there is none.
abbrev pub header : List ℕ → List ℕ → List ℕ → List ℕ → List ℕ → List ℕ → List ℕ
header stamp host app procid msgid text =
    b'1'
    ∷ b' '
    ∷ (stamp
        ++ (b' '
            ∷ (host
                ++ (b' '
                    ∷ (app
                        ++ (b' ' ∷ (procid ++ (b' ' ∷ (msgid ++ (b' ' ∷ b'-' ∷ b' ' ∷ text))))))))))

module _ {T : Type 0} (c : Times T) where
  fields :
      (m : Timed T) (stamp host app procid msgid rest : List ℕ) (t : T)
      → Unspaced stamp
      → Unspaced host
      → Unspaced app
      → Unspaced procid
      → Unspaced msgid
      → parse_timestamp c stamp m.time ≡ some t
      → bytes_of m.message.msg
        ≡ stamp
          ++ (b' '
              ∷ (host ++ (b' ' ∷ (app ++ (b' ' ∷ (procid ++ (b' ' ∷ (msgid ++ (b' ' ∷ rest)))))))))
      → parse_header c m
        ≡ some (record {
          message = record m.message {
            hostname = ignore_nil host;
            app = ignore_nil app;
            procid = ignore_nil procid;
            msgid = ignore_nil msgid;
            msg = some rest;
          };
          time = t;
        })
  unfolding parse_header
  fields m stamp host app procid msgid rest t s h a p i e b =
      rw
        (
          b,
          cut_at-append stamp _ s,
          cut_at-append host _ h,
          cut_at-append app _ a,
          cut_at-append procid _ p,
          cut_at-append msgid rest i,
          e,
        )
        refl

  -- A message in the buffer that begins with a priority and the version 1, then has a time that is read,
  -- a host, an application, a process and a message id, none with a space in it, and `-` for structured
  -- data, is accepted: each field is the bytes that were written, or nothing for `-`, whatever an earlier
  -- message left in the buffer.
  pub parse-header :
      (ds stamp host app procid msgid text stale : List ℕ) (m : Timed T) (t : T)
      → Digits ds
      → 0 < length ds
      → length ds < 4
      → Unspaced stamp
      → Unspaced host
      → Unspaced app
      → Unspaced procid
      → Unspaced msgid
      → parse_timestamp c stamp m.time ≡ some t
      → m.message.buf
        ≡ 60 ∷ (text_of ds ++ (62 ∷ (header stamp host app procid msgid text ++ stale)))
      → m.message.size ≡ length ds + 2 + length (header stamp host app procid msgid text)
      → parse c m
        ≡ Outcome.accepted (record {
          message = record m.message {
            priority = number 0 ds % 256;
            hostname = ignore_nil host;
            app = ignore_nil app;
            procid = ignore_nil procid;
            msgid = ignore_nil msgid;
            msg = some text;
          };
          time = t;
        })
  unfolding parse prioritised versioned structured parse_version parse_structured_data after_two
  parse-header ds stamp host app procid msgid text stale m t d z l s h a p i e b n =
      let first =
        parse_priority-text_of ds (header stamp host app procid msgid text) stale m.message d z l b
          n in
      let rest = b'-' ∷ b' ' ∷ text in
      let after : Timed T = record {
        message = record m.message {
          priority = number 0 ds % 256;
          msg = some (
              stamp
              ++ (b' '
                  ∷ (host
                      ++ (b' '
                          ∷ (app ++ (b' ' ∷ (procid ++ (b' ' ∷ (msgid ++ (b' ' ∷ rest))))))))));
        };
        time = m.time;
      } in
      rw first (rw (fields after stamp host app procid msgid rest t s h a p i e refl) refl)
