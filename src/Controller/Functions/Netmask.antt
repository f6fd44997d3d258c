-- ===== src/Controller/Functions/Netmask.antt =====
-- What the functions for templates come to.
use tinkerbell.Base.{
  ℕ, zero, suc, ◌+◌, ◌-◌, ◌≤◌, ◌<◌, String, Bool, true, false, Option, none, some, List, [], ◌∷◌,
  ◌++◌, ◌≡◌, ◌≢◌, refl, ap, ◌∙◌, sym, arith, leb, eqb, length, length-append, Bool-cases, inl, inr,
  if◌then◌else◌,
}
use tinkerbell.Base.Fallible.{Result, ok}
use tinkerbell.Controller.Functions.{
  pow2, leading_ones, ones_of, prefix_text, netmask_to_prefix_length, write, write_all,
}

pow2-pos : (n : ℕ) → 0 < pow2 n
pow2-pos zero = omega arith
pow2-pos (suc n) = omega (arith, pow2-pos n)

pow2-le : (n k : ℕ) → k ≤ n → pow2 k ≤ pow2 n
pow2-le zero zero h = omega arith
pow2-le zero (suc k) h = absurd (omega arith)
pow2-le (suc n) zero h = omega (arith, pow2-le n zero)
pow2-le (suc n) (suc k) h = omega (arith, pow2-le n k)

-- The mask of a prefix of `k` bits has `k` ones at the front.
pub leading_ones-mask : (w k b : ℕ) → k ≤ w → b + pow2 (w - k) ≡ pow2 w → leading_ones w b ≡ some k
unfolding leading_ones
leading_ones-mask zero zero b h e = refl
leading_ones-mask zero (suc k) b h e = absurd (omega arith)
leading_ones-mask (suc w) zero b h e =
    let all : suc w - 0 ≡ suc w = omega arith in
    let e' : b + (pow2 w + pow2 w) ≡ pow2 w + pow2 w = ap (λ x. b + pow2 x) (sym all) ∙ e in
    let z : b ≡ 0 = omega (arith, e') in ground (arith, z, pow2-pos w)
leading_ones-mask (suc w) (suc k) b h e =
    let s : suc w - suc k ≡ w - k = omega arith in
    let e' : b + pow2 (w - k) ≡ pow2 w + pow2 w = ap (λ x. b + pow2 x) (sym s) ∙ e in
    let small = pow2-le w (w - k) (omega arith) in
    ground (
      arith,
      e',
      small,
      leading_ones-mask w k (b - pow2 w) (omega arith) (omega (arith, e', small)),
    )

-- Back: bits with `k` ones at the front and zeros after them are the mask of a prefix of `k` bits.
mask-leading_ones :
    (w k b : ℕ) → b < pow2 w → leading_ones w b ≡ some k → (k ≤ w) × (b + pow2 (w - k) ≡ pow2 w)
unfolding leading_ones
mask-leading_ones zero k b l e =
    let k0 : 0 ≡ k = ground (arith, e) in
    let b0 : b ≡ 0 = omega (arith, l) in (omega (arith, k0), rw (sym k0, b0) refl)
mask-leading_ones (suc w) k b l e = elim (Bool-cases (leb (pow2 w) b)) [
  | inl large ↦
      stepped (leading_ones w (b - pow2 w)) refl (mask-leading_ones w) (ground (arith, large))
        (rw large at e)
  | inr low ↦ plain (eqb b 0) refl (rw low at e)
]
  where
    stepped :
        (o : Option ℕ)
        → leading_ones w (b - pow2 w) ≡ o
        → ((k b : ℕ)
            → b < pow2 w
            → leading_ones w b ≡ some k
            → (k ≤ w) × (b + pow2 (w - k) ≡ pow2 w))
        → pow2 w ≤ b
        → elim o [ none ↦ none | some j ↦ some (suc j) ] ≡ some k
        → (k ≤ suc w) × (b + pow2 (suc w - k) ≡ pow2 (suc w))
    stepped none q ih g h = absurd (cc)
    stepped (some j) q ih g h =
        let kj : suc j ≡ k = ground (arith, h) in
        let (fits, sum) = ih j (b - pow2 w) (omega (arith, l)) q in
        let s : suc w - k ≡ w - j = omega (arith, kj) in
        (omega (arith, kj, fits), rw s (omega (arith, sum, g)))

    plain :
        (z : Bool)
        → eqb b 0 ≡ z
        → (if z then some 0 else none) ≡ some k
        → (k ≤ suc w) × (b + pow2 (suc w - k) ≡ pow2 (suc w))
    plain true q h =
        let k0 : 0 ≡ k = ground (arith, h) in
        let b0 : b ≡ 0 = ground (arith, q) in
        let s : suc w - k ≡ suc w = omega (arith, k0) in
        (omega (arith, k0), rw (s, b0) (omega arith))
    plain false q h = absurd (cc)

-- A netmask that is read as the bits of a prefix, ones before zeros, is converted to the text of the
-- length of the prefix.
pub netmask_to_prefix_length-mask :
    (parse_ip : String → Option (Option ℕ)) (digits : ℕ → String) (netmask : String) (bits k : ℕ)
    → parse_ip netmask ≡ some (some bits)
    → k ≤ 32
    → bits + pow2 (32 - k) ≡ pow2 32
    → netmask_to_prefix_length parse_ip digits netmask ≡ ok (digits k)
unfolding netmask_to_prefix_length prefix_text ones_of
netmask_to_prefix_length-mask parse_ip digits netmask bits k p h e =
    ap (prefix_text digits) p ∙ rw (leading_ones-mask 32 k bits h e) refl

-- A netmask that is read as bits which are those of no prefix is converted to the text of zero, with no
-- error.
pub netmask_to_prefix_length-zero :
    (parse_ip : String → Option (Option ℕ)) (digits : ℕ → String) (netmask : String) (bits : ℕ)
    → parse_ip netmask ≡ some (some bits)
    → bits < pow2 32
    → ((k : ℕ) → k ≤ 32 → bits + pow2 (32 - k) ≢ pow2 32)
    → netmask_to_prefix_length parse_ip digits netmask ≡ ok (digits 0)
unfolding netmask_to_prefix_length prefix_text ones_of
netmask_to_prefix_length-zero parse_ip digits netmask bits p l differ =
    ap (prefix_text digits) p ∙ counted (leading_ones 32 bits) refl
  where
    counted :
        (o : Option ℕ)
        → leading_ones 32 bits ≡ o
        → ◌≡◌ {A = Result String String} (ok (digits (ones_of o))) (ok (digits 0))
    counted none q = refl
    counted (some k) q = let (h, e) = mask-leading_ones 32 k bits l q in absurd (differ k h e)

-- What a template wrote without an error fits in the limit, and is all that it wrote.
pub write_all-some :
    (limit : ℕ) (ps : List (List ℕ)) (buf out : List ℕ)
    → length buf ≤ limit
    → write_all limit ps buf ≡ some out
    → length out ≤ limit
unfolding write_all write
write_all-some limit [] buf out h e = let same : buf ≡ out = ground (arith, e) in rw same at h
write_all-some limit (p ∷ ps) buf out h e =
    ground (arith, write_all-some limit ps (buf ++ p) out, length-append buf p)
