-- ===== src/Retrieval/Ranked.antt =====
-- What `retrieve` returns (src/hrmosaic/rag/retrieve.py): the best candidates above the threshold, in
-- order, numbered.
use quantic_mosaic.Prelude.{
  ℕ, zero, suc, ◌+◌, ◌*◌, ◌≤◌, ◌<◌, ◌≡◌, refl, sym, ap, ◌∙◌, ◌⊎◌, inl, inr, Bool, true, false, not,
  Option, List, [], ◌∷◌, ◌++◌, keep, take, drop, length, min, Bool-cases, if_both, arith, All, ◌==◌,
  if◌then◌else◌,
}
use mathlib.Core.Path.{subst}
use quantic_mosaic.Prelude.Int.{ℤ, ◌≤ℤ◌, ltb_ℤ}
use quantic_mosaic.Retrieval.{
  Entry, Hit, comes_before, insert_ranked, sort_entries, number_hits, scored, retrieve,
}
use quantic_mosaic.Retrieval.Candidates.{
  count, IsCandidate, is_wanted, count-scored, scored-AllCandidates,
}

-- One entry may stand before another: its fused score is higher, or the same and its dense score
-- higher, or its dense score is not lower either and its row id not higher.
abbrev pub IsSame : Entry → Entry → Type 0
IsSame e f = e.fused.num * f.fused.den ≡ f.fused.num * e.fused.den

abbrev pub Precedes : Entry → Entry → Type 0
Precedes e f =
    (f.fused.num * e.fused.den < e.fused.num * f.fused.den)
    ⊎ (IsSame e f × ¬ (e.dense_score ≤ℤ f.dense_score))
    ⊎ (IsSame e f × (f.dense_score ≤ℤ e.dense_score) × (e.rowid ≤ f.rowid))

Precedes-before : (e f : Entry) → comes_before f e ≡ false → Precedes e f
unfolding comes_before
Precedes-before e f h = ground arith

before-Precedes : (e f : Entry) → comes_before e f ≡ true → Precedes e f
unfolding comes_before
before-Precedes e f h = ground arith

-- An entry may stand before the list that follows it.
unfoldable pub IsNotAfter : Entry → List Entry → Type 0
IsNotAfter e [] = Unit
IsNotAfter e (f ∷ rest) = Precedes e f

unfoldable pub IsOrdered : List Entry → Type 0
unfolding IsNotAfter
IsOrdered [] = Unit
IsOrdered (e ∷ rest) = IsNotAfter e rest × IsOrdered rest

insert-IsNotAfter :
    (f e : Entry) (xs : List Entry)
    → Precedes f e
    → IsNotAfter f xs
    → IsNotAfter f (insert_ranked e xs)
unfolding IsNotAfter insert_ranked
insert-IsNotAfter f e [] h k = h
insert-IsNotAfter f e (g ∷ xs) h k = if_both (IsNotAfter f) (comes_before g e) _ _ k h

insert-IsOrdered : (e : Entry) (xs : List Entry) → IsOrdered xs → IsOrdered (insert_ranked e xs)
unfolding IsOrdered insert_ranked
insert-IsOrdered e [] h = (tt, tt)
insert-IsOrdered e (f ∷ xs) h = elim (Bool-cases (comes_before f e)) [
  | inl b ↦ rw b (insert-IsNotAfter f e xs (before-Precedes f e b) h.0, insert-IsOrdered e xs h.1)
  | inr b ↦ rw b (Precedes-before e f b, h)
]

sort_entries-IsOrdered : (xs : List Entry) → IsOrdered (sort_entries xs)
unfolding IsOrdered sort_entries
sort_entries-IsOrdered [] = tt
sort_entries-IsOrdered (e ∷ xs) = insert-IsOrdered e (sort_entries xs) (sort_entries-IsOrdered xs)

count-insert :
    (p : Entry → Bool) (e : Entry) (xs : List Entry)
    → count p (insert_ranked e xs) ≡ count p (e ∷ xs)
unfolding insert_ranked
count-insert p e [] = refl
count-insert p e (f ∷ xs) =
    if_both (λ ys. count p ys ≡ count p (e ∷ f ∷ xs)) (comes_before f e) _ _
      (omega (arith, count-insert p e xs)) refl

count-sort_entries : (p : Entry → Bool) (xs : List Entry) → count p (sort_entries xs) ≡ count p xs
unfolding sort_entries
count-sort_entries p [] = refl
count-sort_entries p (e ∷ xs) =
    omega (arith, count-insert p e (sort_entries xs), count-sort_entries p xs)

take-drop : (k : ℕ) (xs : List Entry) → take k xs ++ drop k xs ≡ xs
take-drop zero xs = refl
take-drop (suc k) [] = refl
take-drop (suc k) (e ∷ xs) = ap (e ∷◌) (take-drop k xs)

length-take : (k : ℕ) (xs : List Entry) → length (take k xs) ≡ min k (length xs)
length-take zero xs = omega arith
length-take (suc k) [] = omega arith
length-take (suc k) (e ∷ xs) = omega (arith, length-take k xs)

-- The entries of hits that are numbered from a rank on.
unfoldable pub IsNumbered : ℕ → List Hit → List Entry → Type 0
IsNumbered rank [] [] = Unit
IsNumbered rank [] (e ∷ es) = ⊥
IsNumbered rank (h ∷ hs) [] = ⊥
IsNumbered rank (h ∷ hs) (e ∷ es) = (h.rank ≡ rank) × (h.entry ≡ e) × IsNumbered (rank + 1) hs es

number_hits-IsNumbered : (rank : ℕ) (xs : List Entry) → IsNumbered rank (number_hits rank xs) xs
unfolding number_hits IsNumbered
number_hits-IsNumbered rank [] = tt
number_hits-IsNumbered rank (e ∷ xs) = (refl, refl, number_hits-IsNumbered (rank + 1) xs)

insert-All :
    (P : Entry → Type 0) (e : Entry) (xs : List Entry) → P e → All P xs → All P (insert_ranked e xs)
unfolding insert_ranked
insert-All P e [] p h = (p, tt)
insert-All P e (f ∷ xs) p h =
    if_both (All P) (comes_before f e) _ _ (h.0, insert-All P e xs p h.1) (p, h)

sort_entries-All : (P : Entry → Type 0) (xs : List Entry) → All P xs → All P (sort_entries xs)
unfolding sort_entries
sort_entries-All P [] h = tt
sort_entries-All P (e ∷ xs) h = insert-All P e (sort_entries xs) h.0 (sort_entries-All P xs h.1)

length-prefix :
    (k : ℕ) (xs : List Entry) → length (take k xs) ≡ min k (length (take k xs ++ drop k xs))
length-prefix k xs = length-take k xs ∙ ap (λ ys. min k (length ys)) (sym (take-drop k xs))

module _ (stored : ℕ → Option ℤ) (dense : List (ℕ × ℤ)) (lexical : List ℕ) where
  -- The entries of a ranking: the hits, and then those that the cut drops.
  pub record IsRanking (least : ℤ) (k : ℕ) (entries hits : List Entry) : Type 0 where
    pub ordered : IsOrdered entries
    pub scored_so : All (IsCandidate stored dense lexical) entries
    pub once :
        (row : ℕ)
        → count (λ e. e.rowid == row) entries
          ≡ (if is_wanted stored dense lexical least row then 1 else 0)
    pub cut : length hits ≡ min k (length entries)

  ranking :
      (least : ℤ) (k : ℕ) (entries ranked hits : List Entry)
      → ranked
        ≡ sort_entries (keep (λ e. not (ltb_ℤ e.dense_score least)) (scored stored dense lexical))
      → entries ≡ ranked
      → length hits ≡ min k (length entries)
      → IsRanking least k entries hits
  ranking least k entries ranked hits s e cut =
      let above = keep (λ e. not (ltb_ℤ e.dense_score least)) (scored stored dense lexical) in
      let same : entries ≡ sort_entries above = e ∙ s in
      record {
        ordered = subst IsOrdered (sym same) (sort_entries-IsOrdered above);
        scored_so =
            subst (All (IsCandidate stored dense lexical)) (sym same)
              (sort_entries-All _ above (scored-AllCandidates stored dense lexical least));
        once = λ row.
            ap (count (λ e. e.rowid == row)) same
            ∙ count-sort_entries _ above
            ∙ count-scored stored dense lexical least row;
        cut = cut;
      }

  -- The hits of a retrieval, numbered from 1, are the first `k` entries of a ranking, or all of them where
  -- there are not more. It has one entry for each row of the dense or the text arm whose score is at
  -- least the threshold, and no other. The score of a row is the dense arm's, else that of its stored
  -- embedding, else 0; its fused score is the sum of 1 / (60 + its place) over the arms it stands in;
  -- and it stands in order of falling fused score, then falling dense score, then rising row id.
  pub retrieve-IsRanking :
      (least : ℤ) (k : ℕ)
      → (hits : List Entry) × (rest : List Entry) × IsNumbered 1
          (retrieve stored k least dense lexical)
          hits
        × IsRanking least k (hits ++ rest) hits
  unfolding retrieve
  retrieve-IsRanking least k =
      let ranked =
        sort_entries (keep (λ e. not (ltb_ℤ e.dense_score least)) (scored stored dense lexical)) in
      (
        take k ranked,
        drop k ranked,
        number_hits-IsNumbered 1 (take k ranked),
        ranking least k (take k ranked ++ drop k ranked) ranked (take k ranked) refl
            (take-drop k ranked) (length-prefix k ranked),
      )
