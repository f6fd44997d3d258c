-- ===== src/Smee/Iso/Copied.antt =====
-- What a copy writes.
use tinkerbell.Base.{
  ℕ, ◌+◌, ◌-◌, ◌≤◌, String, true, Option, none, some, List, [], ◌∷◌, ◌++◌, ◌≡◌, refl, ap, ◌∙◌, sym,
  arith, length, eqb,
}
use tinkerbell.Smee.Iso.Splice.{
  index_of-Found, splice-append, overlay-append, overlay-spaces, length-splice,
}
use tinkerbell.Smee.Iso.{
  Source, more, last, ReadEnd, index_of, splice, spaces, spliced, patched, written_of, write_read,
  continue_copy, copy, end_of,
}

-- The bytes of a read with the first occurrence of the magic string replaced by the patch and spaces,
-- as many bytes as before; or the same bytes, when it does not occur.
pub data Replaced (magic patch b : List ℕ) : List ℕ → Type 0 where
  kept : index_of magic b ≡ none → Replaced magic patch b b
  replaced :
      (pre post b' : List ℕ)
      → index_of magic b ≡ some (length pre)
      → b ≡ pre ++ (magic ++ post)
      → b' ≡ pre ++ (patch ++ (spaces (length magic - length patch) ++ post))
      → Replaced magic patch b b'

pub patched-Replaced :
    (magic patch b : List ℕ)
    → length patch ≤ length magic
    → Replaced magic patch b (patched magic patch b)
unfolding patched spliced
patched-Replaced magic patch b h = by_index (index_of magic b) refl
  where
    by_index :
        (o : Option ℕ) → index_of magic b ≡ o → Replaced magic patch b (spliced magic patch b o)
    by_index none q = kept q
    by_index (some i) q =
        let f = index_of-Found magic b i q in
        replaced f.pre f.post _ (q ∙ ap (λ n. some n) (sym f.place)) f.joined (
          ap (λ ys. splice i patch (splice i (spaces (length magic)) ys)) f.joined
          ∙ ap (splice i patch) (
              splice-append f.pre (spaces (length magic)) (magic ++ f.post) i f.place
              ∙ ap (λ ys. f.pre ++ ys) (overlay-append magic f.post))
          ∙ splice-append f.pre patch (spaces (length magic) ++ f.post) i f.place
          ∙ ap (λ ys. f.pre ++ ys) (overlay-spaces patch f.post (length magic) h))

-- What is written for a read has as many bytes as the read, whatever the patch.
length-patched : (magic patch b : List ℕ) → length (patched magic patch b) ≡ length b
unfolding patched spliced
length-patched magic patch b = by_index (index_of magic b)
  where
    by_index : (o : Option ℕ) → length (spliced magic patch b o) ≡ length b
    by_index none = refl
    by_index (some i) =
        length-splice i patch (splice i (spaces (length magic)) b)
        ∙ length-splice i (spaces (length magic)) b

-- The reads that brought bytes, and how the source ended.
abbrev pub with_read : List ℕ → List (List ℕ) → List (List ℕ)
with_read [] rs = rs
with_read (x ∷ b) rs = (x ∷ b) ∷ rs

abbrev pub reads : Source → List (List ℕ)
reads (last b e) = with_read b []
reads (more b rest) = with_read b (reads rest)

abbrev pub ending : Source → ReadEnd
ending (last b e) = e
ending (more b rest) = ending rest

abbrev pub total : List (List ℕ) → ℕ
total [] = 0
total (b ∷ bs) = length b + total bs

abbrev pub EachReplaced : List ℕ → List ℕ → List (List ℕ) → List (List ℕ) → Type 0
EachReplaced magic patch [] [] = Unit
EachReplaced magic patch [] (o ∷ os) = ⊥
EachReplaced magic patch (b ∷ bs) [] = ⊥
EachReplaced magic patch (b ∷ bs) (o ∷ os) =
    Replaced magic patch b o × EachReplaced magic patch bs os

abbrev pub put_all : {S : Type 0} → (List ℕ → S → S) → List (List ℕ) → S → S
put_all put [] s = s
put_all put (b ∷ bs) s = put_all put bs (put b s)

module _ {S : Type 0} (write : List ℕ → S → (ℕ × Option String) × S) (magic patch : List ℕ)
    (put : List ℕ → S → S) where
  -- The writer takes all the bytes, each time.
  abbrev pub Accepts : Type 0
  Accepts = (b : List ℕ) (s : S) → write b s ≡ ((length b, none), put b s)

  takes :
      Accepts
      → (x : ℕ) (b : List ℕ) (s : S)
      → write_read write magic patch (x ∷ b) s
        ≡ ((length (x ∷ b), none), put (patched magic patch (x ∷ b)) s)
  unfolding write_read written_of
  takes h x b s =
      let whole : eqb (length (x ∷ b)) (length (x ∷ b)) ≡ true = ground arith in
      rw (h (patched magic patch (x ∷ b)) s, length-patched magic patch (x ∷ b), whole) refl

  -- Where the writer takes all bytes and the patch is no longer than the magic string, the copy of a
  -- source that ends is done at its end, has written as many bytes as it has read, and has written each
  -- read as it came or with the first occurrence of the magic string replaced by the patch and spaces.
  pub copy-EachReplaced :
      (src : Source) (written : ℕ) (s : S)
      → Accepts
      → length patch ≤ length magic
      → (outs : List (List ℕ)) × EachReplaced magic patch (reads src) outs
        × (copy write magic patch src written s ≡ (
          (written + total (reads src), end_of write magic patch (ending src)),
          put_all put outs s,
        ))
  unfolding copy write_read continue_copy
  copy-EachReplaced (last [] e) written s h l = ([], tt, refl)
  copy-EachReplaced (last (x ∷ b) e) written s h l = (
    patched magic patch (x ∷ b) ∷ [],
    (patched-Replaced magic patch (x ∷ b) l, tt),
    rw (takes h x b s) (
        ap (λ n. ((written + n, end_of write magic patch e), put (patched magic patch (x ∷ b)) s))
          alone),
  )
    where
      alone : length (x ∷ b) ≡ length (x ∷ b) + 0
      alone = omega arith
  copy-EachReplaced (more [] rest) written s h l =
      let (outs, r, e) = copy-EachReplaced rest (written + 0) s h l in
      let same : written + 0 + total (reads rest) ≡ written + total (reads rest) = omega arith in
      (
        outs,
        r,
        e ∙ ap (λ n. ((n, end_of write magic patch (ending rest)), put_all put outs s)) same,
      )
  copy-EachReplaced (more (x ∷ b) rest) written s h l =
      let (outs, r, e) =
        copy-EachReplaced rest (written + length (x ∷ b)) (put (patched magic patch (x ∷ b)) s) h
          l in
      let same : written + length (x ∷ b) + total (reads rest)
          ≡ written + (length (x ∷ b) + total (reads rest)) =
        omega arith in
      (
        patched magic patch (x ∷ b) ∷ outs,
        (patched-Replaced magic patch (x ∷ b) l, r),
        ap (λ w. continue_copy write magic patch w written (copy write magic patch rest))
              (takes h x b s)
            ∙ e
            ∙ ap
                (λ n. (
                  (n, end_of write magic patch (ending rest)),
                  put_all put (patched magic patch (x ∷ b) ∷ outs) s,
                ))
                same,
      )
