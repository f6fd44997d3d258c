-- ===== src/Smee/Iso/Splice.antt =====
-- Where bytes are found, and what they are when others are written over them.
use tinkerbell.Base.{
  ℕ, zero, suc, ◌-◌, ◌≤◌, Bool, true, false, Option, none, some, List, [], ◌∷◌, ◌++◌, ◌≡◌, refl, ap,
  arith, length,
}
use tinkerbell.Smee.Iso.{index_of, has_prefix, overlay, splice, spaces}

has_prefix-append : (p b : List ℕ) → has_prefix p b ≡ true → (post : List ℕ) × (b ≡ p ++ post)
has_prefix-append [] b h = (b, refl)
has_prefix-append (x ∷ p) [] h = absurd (cc)
has_prefix-append (x ∷ p) (y ∷ b) h =
    let (post, e) = has_prefix-append p b (ground (arith, h)) in
    let same : y ≡ x = ground (arith, h) in (post, λ i. same i ∷ e i)

-- Where the bytes are found there are they.
pub record Found (p b : List ℕ) (i : ℕ) : Type 0 where
  pub pre : List ℕ
  pub post : List ℕ
  pub place : length pre ≡ i
  pub joined : b ≡ pre ++ (p ++ post)

pub index_of-Found : (p b : List ℕ) (i : ℕ) → index_of p b ≡ some i → Found p b i
unfolding index_of
index_of-Found p [] i h = start (has_prefix p []) refl
  where
    start : (t : Bool) → has_prefix p [] ≡ t → Found p [] i
    start true q =
        let (post, e) = has_prefix-append p [] q in
        record { pre = []; post = post; place = ground (arith, q, h); joined = e }
    start false q = absurd (ground (arith, q, h))
index_of-Found p (x ∷ xs) i h =
    begins (index_of-Found p xs) (has_prefix p (x ∷ xs)) (index_of p xs) refl refl
  where
    begins :
        ((j : ℕ) → index_of p xs ≡ some j → Found p xs j)
        → (t : Bool) (o : Option ℕ) → has_prefix p (x ∷ xs) ≡ t
        → index_of p xs ≡ o
        → Found p (x ∷ xs) i
    begins later true o q r =
        let (post, e) = has_prefix-append p (x ∷ xs) q in
        record { pre = []; post = post; place = ground (arith, q, h); joined = e }
    begins later false none q r = absurd (ground (arith, q, r, h))
    begins later false (some j) q r =
        let f = later j r in
        record {
          pre = x ∷ f.pre;
          post = f.post;
          place = ground (arith, q, r, h, f.place);
          joined = ap (λ ys. x ∷ ys) f.joined;
        }

pub splice-append :
    (pre p b : List ℕ) (i : ℕ) → length pre ≡ i → splice i p (pre ++ b) ≡ pre ++ overlay p b
unfolding splice
splice-append [] p b zero h = refl
splice-append [] p b (suc i) h = absurd (omega arith)
splice-append (x ∷ pre) p b zero h = absurd (omega arith)
splice-append (x ∷ pre) p b (suc i) h = ap (λ ys. x ∷ ys) (splice-append pre p b i (omega arith))

pub overlay-append :
    (magic post : List ℕ)
    → overlay (spaces (length magic)) (magic ++ post) ≡ spaces (length magic) ++ post
unfolding overlay
overlay-append [] post = refl
overlay-append (x ∷ magic) post = ap (λ ys. b' ' ∷ ys) (overlay-append magic post)

pub overlay-spaces :
    (p post : List ℕ) (n : ℕ)
    → length p ≤ n
    → overlay p (spaces n ++ post) ≡ p ++ (spaces (n - length p) ++ post)
unfolding overlay
overlay-spaces [] post n h = let e : n - 0 ≡ n = omega arith in rw e refl
overlay-spaces (x ∷ p) post zero h = absurd (omega arith)
overlay-spaces (x ∷ p) post (suc n) h =
    let e : suc n - suc (length p) ≡ n - length p = omega arith in
    rw e (ap (λ ys. x ∷ ys) (overlay-spaces p post n (omega arith)))

length-overlay : (p b : List ℕ) → length (overlay p b) ≡ length b
unfolding overlay
length-overlay [] b = refl
length-overlay (x ∷ p) [] = refl
length-overlay (x ∷ p) (y ∷ b) = ap (λ n. suc n) (length-overlay p b)

pub length-splice : (i : ℕ) (p b : List ℕ) → length (splice i p b) ≡ length b
unfolding splice
length-splice zero p b = length-overlay p b
length-splice (suc i) p [] = refl
length-splice (suc i) p (y ∷ b) = ap (λ n. suc n) (length-splice i p b)
