-- ===== src/Rufio/Inventory/Order.antt =====
-- `sortByKeyThenContent` (rufio/internal/controller/inventory.go): the standard library's sort, here by
-- insertion, and Go's `<` on strings, by the code points. Where the keys tell all elements apart the
-- outcome depends neither on how the elements came nor on their contents.
use Prim.Native.Char.{code}
use Prim.Native.String as Native
use text.Mathlib.TextEquality.{Char-path}
use tinkerbell.Base.{
  String, Bool, true, false, List, [], ◌∷◌, ◌≡◌, ◌∙◌, refl, sym, ap, arith, ltb, eqb, if◌then◌else◌,
  All,
}
use tinkerbell.Base.Equality.{◌==◌, string_eq}

unfoldable pub text_less : String → String → Bool
text_less Native.[] Native.[] = false
text_less Native.[] (Native.◌∷◌ d t) = true
text_less (Native.◌∷◌ c s) Native.[] = false
text_less (Native.◌∷◌ c s) (Native.◌∷◌ d t) =
    if ltb (code c) (code d) then true else (if eqb (code c) (code d) then text_less s t else false)

module _ {A : Type 0} (less : A → A → Bool) where
  unfoldable pub insert_by : A → List A → List A
  insert_by x [] = x ∷ []
  insert_by x (y ∷ ys) = if less y x then y ∷ insert_by x ys else x ∷ y ∷ ys

  unfoldable pub sort_by : List A → List A
  sort_by [] = []
  sort_by (x ∷ xs) = insert_by x (sort_by xs)

-- The order of `sortByKeyThenContent`.
abbrev pub key_then_content : {A : Type 0} → (A → String) → (A → String) → A → A → Bool
key_then_content key content a b =
    if key a == key b then text_less (content a) (content b) else text_less (key a) (key b)

-- Two lists with the same elements, as often.
pub data Shuffled {A : Type 0} : List A → List A → Type 0 where
  same : (xs : List A) → Shuffled xs xs
  keep : (x : A) {xs ys : List A} → Shuffled xs ys → Shuffled (x ∷ xs) (x ∷ ys)
  swap : (x y : A) (xs : List A) → Shuffled (x ∷ y ∷ xs) (y ∷ x ∷ xs)
  chain : {xs ys zs : List A} → Shuffled xs ys → Shuffled ys zs → Shuffled xs zs

-- A strict order that tells the values of a predicate apart.
pub record IsOrder {A : Type 0} (less : A → A → Bool) (P : A → Type 0) : Type 0 where
  pub asym : (a b : A) → less a b ≡ true → less b a ≡ false
  pub trans : (a b c : A) → less a b ≡ true → less b c ≡ true → less a c ≡ true
  pub apart : (a b : A) → P a → P b → less a b ≡ false → less b a ≡ false → a ≡ b

All-Shuffled : {A : Type 0} (P : A → Type 0) {xs ys : List A} → Shuffled xs ys → All P xs → All P ys
All-Shuffled P (same xs) h = h
All-Shuffled P (keep x r) (p, h) = (p, All-Shuffled P r h)
All-Shuffled P (swap x y xs) (p, (q, h)) = (q, (p, h))
All-Shuffled P (chain r r') h = All-Shuffled P r' (All-Shuffled P r h)

module _ {A : Type 0} {less : A → A → Bool} {P : A → Type 0} (o : IsOrder less P) where
  insert_by-lt :
      (a b : A) (xs : List A)
      → less a b ≡ true
      → insert_by less a (insert_by less b xs) ≡ insert_by less b (insert_by less a xs)
  unfolding insert_by
  insert_by-lt a b [] h = ground (arith, o.asym a b h)
  insert_by-lt a b (y ∷ ys) h = ground (arith, o.asym a b h, o.trans y a b, insert_by-lt a b ys h)

  insert_by_comm :
      (a b : A) (xs : List A) (p q : Bool)
      → P a
      → P b
      → less a b ≡ p
      → less b a ≡ q
      → insert_by less a (insert_by less b xs) ≡ insert_by less b (insert_by less a xs)
  insert_by_comm a b xs true q u v e f = insert_by-lt a b xs e
  insert_by_comm a b xs false true u v e f = sym (insert_by-lt b a xs f)
  insert_by_comm a b xs false false u v e f =
      let eq = o.apart a b u v e f in λ i. insert_by less (eq i) (insert_by less (sym eq i) xs)

  pub sort_by-Shuffled :
      {xs ys : List A} → Shuffled xs ys → All P xs → sort_by less xs ≡ sort_by less ys
  unfolding sort_by
  sort_by-Shuffled (same xs) h = refl
  sort_by-Shuffled (keep x r) (p, h) = ap (insert_by less x) (sort_by-Shuffled r h)
  sort_by-Shuffled (swap x y xs) (p, (q, h)) =
      insert_by_comm x y (sort_by less xs) (less x y) (less y x) p q refl refl
  sort_by-Shuffled (chain r r') h = sort_by-Shuffled r h ∙ sort_by-Shuffled r' (All-Shuffled P r h)

text_less-asym : (s t : String) → text_less s t ≡ true → text_less t s ≡ false
unfolding text_less
text_less-asym Native.[] Native.[] h = refl
text_less-asym Native.[] (Native.◌∷◌ d t) h = refl
text_less-asym (Native.◌∷◌ c s) Native.[] h = cc
text_less-asym (Native.◌∷◌ c s) (Native.◌∷◌ d t) h = ground (arith, text_less-asym s t)

text_less_trans :
    (s t u : String) → text_less s t ≡ true → text_less t u ≡ true → text_less s u ≡ true
unfolding text_less
text_less_trans Native.[] Native.[] u h k = k
text_less_trans Native.[] (Native.◌∷◌ d t) Native.[] h k = cc
text_less_trans Native.[] (Native.◌∷◌ d t) (Native.◌∷◌ e u) h k = refl
text_less_trans (Native.◌∷◌ c s) Native.[] u h k = absurd (cc)
text_less_trans (Native.◌∷◌ c s) (Native.◌∷◌ d t) Native.[] h k = cc
text_less_trans (Native.◌∷◌ c s) (Native.◌∷◌ d t) (Native.◌∷◌ e u) h k =
    ground (arith, text_less_trans s t u)

text_less-apart : (s t : String) → text_less s t ≡ false → text_less t s ≡ false → s ≡ t
unfolding text_less
text_less-apart Native.[] Native.[] h k = refl
text_less-apart Native.[] (Native.◌∷◌ d t) h k = absurd (cc)
text_less-apart (Native.◌∷◌ c s) Native.[] h k = absurd (cc)
text_less-apart (Native.◌∷◌ c s) (Native.◌∷◌ d t) h k =
    let e : code c ≡ code d = ground (arith, h, k) in
    let r : s ≡ t = text_less-apart s t (ground (arith, e, h)) (ground (arith, e, k)) in
    λ i. Native.◌∷◌ (Char-path c d e i) (r i)

text_less_irrefl : (s : String) → text_less s s ≡ false
text_less_irrefl s = ground (arith, text_less-asym s s)

-- By key and then by content is such an order, where the key tells the values apart.
pub key_then_content-IsOrder :
    {A : Type 0}
    → (P : A → Type 0) (key content : A → String) → ((a b : A) → P a → P b → key a ≡ key b → a ≡ b)
    → IsOrder (key_then_content key content) P
key_then_content-IsOrder P key content inj = record {
  asym = λ a b h.
      ground (arith, h, text_less-asym (key a) (key b), text_less-asym (content a) (content b));
  trans = λ a b c h k. ground (
    arith,
    h,
    k,
    text_less-asym (key a) (key b),
    text_less-asym (key a) (key a),
    text_less_trans (key a) (key b) (key c),
    text_less_trans (content a) (content b) (content c),
  );
  apart = λ a b p q h k. inj a b p q (ground (arith, h, k, text_less-apart (key a) (key b)));
}

-- Where the key tells the values apart, the content makes no difference.
key_then_content-same :
    {A : Type 0} (P : A → Type 0) (key c c' : A → String)
    → ((a b : A) → P a → P b → key a ≡ key b → a ≡ b)
    → (a b : A) → P a
    → P b
    → key_then_content key c a b ≡ key_then_content key c' a b
key_then_content-same P key c c' inj a b p q = elim (string_eq.dec (key a) (key b)) [
  | yes e ↦
      let r : a ≡ b = inj a b p q e in
      ground (arith, e, r, text_less_irrefl (c a), text_less_irrefl (c' a))
  | no n ↦ ground (arith, n)
]

module _ {A : Type 0} (P : A → Type 0) (less less' : A → A → Bool)
    (agree : (a b : A) → P a → P b → less a b ≡ less' a b) where
  All-insert_by : (x : A) (xs : List A) → P x → All P xs → All P (insert_by less x xs)
  unfolding insert_by
  All-insert_by x [] p h = (p, tt)
  All-insert_by x (y ∷ ys) p (q, h) = ground (arith, p, q, h, All-insert_by x ys p h)

  pub All-sort_by : (xs : List A) → All P xs → All P (sort_by less xs)
  unfolding sort_by
  All-sort_by [] h = tt
  All-sort_by (x ∷ xs) (p, h) = All-insert_by x (sort_by less xs) p (All-sort_by xs h)

  insert_by-agree :
      (x : A) (xs : List A) → P x → All P xs → insert_by less x xs ≡ insert_by less' x xs
  unfolding insert_by
  insert_by-agree x [] p h = refl
  insert_by-agree x (y ∷ ys) p (q, h) = ground (arith, agree y x q p, insert_by-agree x ys p h)

  pub sort_by-agree : (xs : List A) → All P xs → sort_by less xs ≡ sort_by less' xs
  unfolding sort_by
  sort_by-agree [] h = refl
  sort_by-agree (x ∷ xs) (p, h) =
      insert_by-agree x (sort_by less xs) p (All-sort_by xs h)
      ∙ ap (insert_by less' x) (sort_by-agree xs h)

-- Two contents sort the same elements in the same way, where the key tells them apart.
pub sort_by-two_contents :
    {A : Type 0} (P : A → Type 0) (key c c' : A → String)
    → ((a b : A) → P a → P b → key a ≡ key b → a ≡ b)
    → (xs ys : List A) → Shuffled xs ys
    → All P xs
    → sort_by (key_then_content key c) xs ≡ sort_by (key_then_content key c') ys
sort_by-two_contents P key c c' inj xs ys s h =
    sort_by-agree P (key_then_content key c) (key_then_content key c')
      (key_then_content-same P key c c' inj) xs h
    ∙ sort_by-Shuffled (key_then_content-IsOrder P key c' inj) s h
