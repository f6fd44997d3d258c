-- ===== src/Smee/Syslog/Priority.antt =====
-- The priority of a message that begins well.
use tinkerbell.Base.{
  ℕ, zero, suc, ◌+◌, ◌-◌, ◌*◌, ◌%◌, ◌<◌, true, false, some, List, [], ◌∷◌, ◌++◌, ◌≡◌, refl, ap, ◌∙◌,
  arith, All, length, take, drop, ltb, leb,
}
use tinkerbell.Smee.Syslog.{Message, Parsed, starts_with, scan, closed_at, parse_priority}

abbrev pub text_of : List ℕ → List ℕ
text_of [] = []
text_of (d ∷ ds) = (d + 48) ∷ text_of ds

-- The number that digits write, after the number `n`.
abbrev pub number : ℕ → List ℕ → ℕ
number n [] = n
number n (d ∷ ds) = number (n * 10 + d) ds

abbrev pub Digits : List ℕ → Type 0
Digits ds = All (λ d. d < 10) ds

abbrev byte : ℕ → List ℕ → ℕ
byte n [] = n
byte n (d ∷ ds) = byte ((n * 10 + (d + 48) + 208) % 256) ds

byte-number : (ds : List ℕ) (m n : ℕ) → m ≡ n % 256 → byte m ds ≡ number n ds % 256
byte-number [] m n h = h
byte-number (d ∷ ds) m n h =
    byte-number ds ((m * 10 + (d + 48) + 208) % 256) (n * 10 + d) (omega (arith, h))

scan-text_of :
    (ds more : List ℕ) (n i pri : ℕ)
    → Digits ds
    → length ds < n
    → scan i pri (take n (text_of ds ++ (62 ∷ more))) ≡ some (i + length ds, byte pri ds)
unfolding scan
scan-text_of [] more zero i pri k l = absurd (omega (arith, l))
scan-text_of [] more (suc n) i pri k l = ground arith
scan-text_of (d ∷ ds) more zero i pri k l = absurd (omega (arith, l))
scan-text_of (d ∷ ds) more (suc n) i pri k l = ground (
  arith,
  scan-text_of ds more n (suc i) ((pri * 10 + (d + 48) + 208) % 256) k.1 (omega (arith, l)),
)

drop-text_of : (ds xs : List ℕ) → drop (suc (length ds)) (text_of ds ++ (62 ∷ xs)) ≡ xs
drop-text_of [] xs = refl
drop-text_of (d ∷ ds) xs = drop-text_of ds xs

take-append : (xs ys : List ℕ) → take (length xs) (xs ++ ys) ≡ xs
take-append [] ys = refl
take-append (x ∷ xs) ys = ap (λ zs. x ∷ zs) (take-append xs ys)

closed_at-rest :
    (n pri : ℕ) (rest stale : List ℕ) (m : Message)
    → drop (suc (suc n)) m.buf ≡ rest ++ stale
    → m.size ≡ n + 2 + length rest
    → closed_at m (some (n, pri)) ≡ Parsed.accepted (record m { priority = pri; msg = some rest })
unfolding closed_at
closed_at-rest n pri rest stale m d s =
    let fits : leb (n + 2) m.size ≡ true = ground (arith, s) in
    let left : m.size - (n + 2) ≡ length rest = omega (arith, s) in
    let two : n + 2 ≡ suc (suc n) = omega arith in
    let e : drop (n + 2) m.buf ≡ rest ++ stale = ap (λ k. drop k m.buf) two ∙ d in
    rw (fits, e, left, take-append rest stale) refl

-- `parsePriority` on a buffer that holds `<`, one to three digits, `>`, a rest, and what an earlier
-- message has left, with the size of the part before what was left: the priority is the number that
-- the digits write, in a byte, and the message goes on with the rest.
pub parse_priority-text_of :
    (ds rest stale : List ℕ) (m : Message)
    → Digits ds
    → 0 < length ds
    → length ds < 4
    → m.buf ≡ 60 ∷ (text_of ds ++ (62 ∷ (rest ++ stale)))
    → m.size ≡ length ds + 2 + length rest
    → parse_priority m
      ≡ Parsed.accepted (record m { priority = number 0 ds % 256; msg = some rest })
unfolding parse_priority
parse_priority-text_of ds rest stale m k z l b s =
    let large : ltb m.size 3 ≡ false = ground (arith, s, z) in
    let begun : starts_with 60 m.buf ≡ true = rw b refl in
    let found = scan-text_of ds (rest ++ stale) 4 0 0 k l in
    let past : drop (suc (suc (length ds))) m.buf ≡ rest ++ stale =
      ap (λ xs. drop (suc (suc (length ds))) xs) b ∙ drop-text_of ds (rest ++ stale) in
    let none_added : 0 + length ds ≡ length ds = omega arith in
    rw (large, begun) (ap (closed_at m) (ap (λ xs. scan 0 0 (take 4 (drop 1 xs))) b ∙ found))
    ∙ closed_at-rest (0 + length ds) (byte 0 ds) rest stale m
        (ap (λ n. drop (suc (suc n)) m.buf) none_added ∙ past) (omega (arith, s))
    ∙ ap (λ p. Parsed.accepted (record m { priority = p; msg = some rest }))
        (byte-number ds 0 0 refl)

-- `parsePriority` on a message of three bytes, `<` and two digits, panics when the buffer holds a `>`
-- behind them that an earlier message has left.
pub parse_priority-stale :
    (d e : ℕ) (stale : List ℕ) (m : Message)
    → d < 10
    → e < 10
    → m.buf ≡ 60 ∷ (d + 48) ∷ (e + 48) ∷ 62 ∷ stale
    → m.size ≡ 3
    → parse_priority m ≡ Parsed.panicked
unfolding parse_priority closed_at
parse_priority-stale d e stale m h k b s =
    let large : ltb m.size 3 ≡ false = ground (arith, s) in
    let begun : starts_with 60 m.buf ≡ true = rw b refl in
    let found = scan-text_of (d ∷ e ∷ []) stale 4 0 0 (h, (k, tt)) (omega arith) in
    rw (large, begun)
      (ap (closed_at m) (ap (λ xs. scan 0 0 (take 4 (drop 1 xs))) b ∙ found) ∙ (ground (arith, s)))
