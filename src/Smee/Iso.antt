-- ===== src/Smee/Iso.antt =====
-- The copy of an ISO to the client with the kernel parameters patched in (`Copy` of
-- smee/internal/iso/iso.go). A byte is a number; the buffer's size shows in what a read brings.
mod Splice
pub mod Copied
pub mod Patch
mod Tests
use tinkerbell.Base.{
  ℕ, zero, suc, ◌+◌, String, Bool, true, false, Option, none, some, List, [], ◌∷◌, if◌then◌else◌,
  eqb, length, ◌&&◌,
}

pub data ReadEnd : Type 0 where
  eof : ReadEnd
  broken : String → ReadEnd

-- What the reader brings until it reports an error: the last read may bring bytes too.
pub data Source : Type 0 where
  more : List ℕ → Source → Source
  last : List ℕ → ReadEnd → Source

-- How a copy ends, besides the number of the bytes that were written.
pub data CopyEnd : Type 0 where
  done short_write : CopyEnd
  failed : String → CopyEnd

abbrev has_prefix : List ℕ → List ℕ → Bool
has_prefix [] xs = true
has_prefix (p ∷ ps) [] = false
has_prefix (p ∷ ps) (x ∷ xs) = eqb p x && has_prefix ps xs

-- `bytes.Index`
unfoldable pub index_of : List ℕ → List ℕ → Option ℕ
index_of p [] = if has_prefix p [] then some 0 else none
index_of p (x ∷ xs) =
    if has_prefix p (x ∷ xs)
    then some 0
    else elim (index_of p xs) [ none ↦ none | some i ↦ some (suc i) ]

-- `copy(b, p)` and `copy(b[i:], p)`, with the bytes of `b` afterwards.
unfoldable pub overlay : List ℕ → List ℕ → List ℕ
overlay [] b = b
overlay (x ∷ p) [] = []
overlay (x ∷ p) (y ∷ b) = x ∷ overlay p b

unfoldable pub splice : ℕ → List ℕ → List ℕ → List ℕ
splice zero p b = overlay p b
splice (suc i) p [] = []
splice (suc i) p (y ∷ b) = y ∷ splice i p b

abbrev pub spaces : ℕ → List ℕ
spaces zero = []
spaces (suc n) = b' ' ∷ spaces n

spliced : List ℕ → List ℕ → List ℕ → Option ℕ → List ℕ
spliced magic patch b none = b
spliced magic patch b (some i) = splice i patch (splice i (spaces (length magic)) b)

-- What is written for the bytes of one read.
unfoldable pub patched : List ℕ → List ℕ → List ℕ → List ℕ
unfolding spliced
patched magic patch b = spliced magic patch b (index_of magic b)

module _ {S : Type 0} (write : List ℕ → S → (ℕ × Option String) × S) (magic patch : List ℕ) where
  -- A write, and whether to go on: the bytes written, and how the copy ends if it does.
  unfoldable pub written_of : ℕ → ℕ × Option String → ℕ × Option CopyEnd
  written_of read (n, some e) = (n, some (CopyEnd.failed e))
  written_of read (n, none) = (n, if eqb read n then none else some CopyEnd.short_write)

  unfoldable pub write_read : List ℕ → S → (ℕ × Option CopyEnd) × S
  write_read [] s = ((0, none), s)
  write_read (x ∷ b) s =
      let w = write (patched magic patch (x ∷ b)) s in (written_of (length (x ∷ b)) w.0, w.1)

  abbrev pub end_of : ReadEnd → CopyEnd
  end_of ReadEnd.eof = CopyEnd.done
  end_of (ReadEnd.broken e) = CopyEnd.failed e

  -- After the write of a read: the copy stops, or goes on with the number of bytes written.
  unfoldable pub continue_copy :
      (ℕ × Option CopyEnd) × S → ℕ → (ℕ → S → (ℕ × CopyEnd) × S) → (ℕ × CopyEnd) × S
  continue_copy ((n, some stop), s) written k = ((written + n, stop), s)
  continue_copy ((n, none), s) written k = k (written + n) s

  -- `Copy`: the number of bytes written and how it ended.
  unfoldable pub copy : Source → ℕ → S → (ℕ × CopyEnd) × S
  copy (last b e) written s = continue_copy (write_read b s) written (λ n s'. ((n, end_of e), s'))
  copy (more b rest) written s = continue_copy (write_read b s) written (copy rest)
