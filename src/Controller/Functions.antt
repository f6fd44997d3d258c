-- ===== src/Controller/Functions.antt =====
-- The functions for templates and the writer with a limit
-- (tink/controller/internal/workflow/template_funcs.go). A text is the list of its bytes.
pub mod Netmask
mod Tests
use tinkerbell.Base.{
  ℕ, zero, suc, ◌+◌, ◌-◌, ◌*◌, String, Bool, true, false, Option, none, some, List, [], ◌∷◌, ◌++◌,
  if◌then◌else◌, ltb, leb, eqb, length, ◌&&◌,
}
use tinkerbell.Base.Fallible.{Result, ok, err}

abbrev pub max_render_bytes : ℕ
max_render_bytes = 256 * 1024

-- `limitedWriter.Write`: the buffer afterwards, and the bytes that were written or none.
unfoldable pub write : ℕ → List ℕ → List ℕ → Option ℕ × List ℕ
write limit p buf =
    if ltb limit (length buf + length p) then (none, buf) else (some (length p), buf ++ p)

-- An execution of a template, which ends at the first write that fails.
unfoldable pub write_all : ℕ → List (List ℕ) → List ℕ → Option (List ℕ)
write_all limit [] buf = some buf
write_all limit (p ∷ ps) buf = elim (write limit p buf).0 [
  | none ↦ none
  | some n ↦ write_all limit ps (write limit p buf).1
]

abbrev has_prefix : List ℕ → List ℕ → Bool
has_prefix [] xs = true
has_prefix (p ∷ ps) [] = false
has_prefix (p ∷ ps) (x ∷ xs) = eqb p x && has_prefix ps xs

abbrev ends_in_digit : List ℕ → Bool
ends_in_digit [] = false
ends_in_digit (x ∷ []) = leb 48 x && leb x 57
ends_in_digit (x ∷ y ∷ ys) = ends_in_digit (y ∷ ys)

-- "/dev/disk/"
abbrev pub dev_disk : List ℕ
dev_disk = 47 ∷ 100 ∷ 101 ∷ 118 ∷ 47 ∷ 100 ∷ 105 ∷ 115 ∷ 107 ∷ 47 ∷ []

-- "-part" and "p"
abbrev pub dash_part : List ℕ
dash_part = 45 ∷ 112 ∷ 97 ∷ 114 ∷ 116 ∷ []

-- `formatPartition`; `digits` writes a number.
unfoldable pub format_partition : (ℕ → List ℕ) → List ℕ → ℕ → List ℕ
format_partition digits dev partition =
    if has_prefix dev_disk dev
    then dev ++ (dash_part ++ digits partition)
    else (if ends_in_digit dev then dev ++ (112 ∷ digits partition) else dev ++ digits partition)

abbrev pub pow2 : ℕ → ℕ
pow2 zero = 1
pow2 (suc n) = pow2 n + pow2 n

-- The standard library's `IPMask.Size` on the bits of a mask, the first bit being the highest: the
-- ones at the front, and nothing if a one follows a zero.
unfoldable pub leading_ones : ℕ → ℕ → Option ℕ
leading_ones zero b = some 0
leading_ones (suc n) b =
    let rest = leading_ones n (b - pow2 n) in
    if leb (pow2 n) b
    then elim rest [ none ↦ none | some k ↦ some (suc k) ]
    else (if eqb b 0 then some 0 else none)

-- `ones`, which is 0 for bits that are no mask.
ones_of : Option ℕ → ℕ
ones_of none = 0
ones_of (some k) = k

prefix_text : (ℕ → String) → Option (Option ℕ) → Result String String
unfolding ones_of
prefix_text digits none = err "invalid netmask format"
prefix_text digits (some none) = err "netmask must be IPv4"
prefix_text digits (some (some bits)) = ok (digits (ones_of (leading_ones 32 bits)))

-- `netmaskToPrefixLength`; `parse_ip` is ParseIP with To4 after it, the address as a number of 32 bits.
unfoldable pub netmask_to_prefix_length :
    (String → Option (Option ℕ)) → (ℕ → String) → String → Result String String
unfolding prefix_text
netmask_to_prefix_length parse_ip digits netmask = prefix_text digits (parse_ip netmask)
