-- ===== src/Retrieval/Candidates.antt =====
-- The candidates of one retrieval (`scored` in `retrieve`, src/hrmosaic/rag/retrieve.py), against the
-- rows of the two arms.
use quantic_mosaic.Prelude.{
  ℕ, ◌+◌, ◌*◌, ◌≡◌, refl, ap, ◌∙◌, inl, inr, Bool, not, ◌&&◌, ◌||◌, Option, none, some, List, [],
  ◌∷◌, ◌++◌, keep, map, All, arith, ◌==◌, ==_iff, if◌then◌else◌, Bool-cases, if_both,
}
use quantic_mosaic.Prelude.Int.{ℤ, pos, ltb_ℤ}
use quantic_mosaic.Retrieval.{
  Ratio, Entry, rrf_score, put_row, get_row, rows_of, is_some, rank_rows, scores_of, given,
  score_entry, score_or_zero, filled, scored,
}

-- The later of two findings.
abbrev pub or_earlier {ℓ} : {A : Type ℓ} → Option A → Option A → Option A
or_earlier (some a) earlier = some a
or_earlier none earlier = earlier

-- The last place, from a number on, at which a row stands in an arm.
abbrev pub place : ℕ → ℕ → List ℕ → Option ℕ
place start row [] = none
place start row (x ∷ xs) =
    or_earlier (place (start + 1) row xs) (if x == row then some start else none)

-- The score that the dense arm last gives a row.
abbrev pub dense_of : ℕ → List (ℕ × ℤ) → Option ℤ
dense_of row [] = none
dense_of row ((x, score) ∷ more) =
    or_earlier (dense_of row more) (if x == row then some score else none)

or_earlier_assoc {ℓ} :
    {A : Type ℓ} (a b c : Option A) → or_earlier a (or_earlier b c) ≡ or_earlier (or_earlier a b) c
or_earlier_assoc (some v) b c = refl
or_earlier_assoc none b c = refl

or_earlier-none {ℓ} : {A : Type ℓ} (a : Option A) → or_earlier a none ≡ a
or_earlier-none (some a) = refl
or_earlier-none none = refl

module _ {ℓ} {V : Type ℓ} where
  get_row-put_row :
      (row new : ℕ) (value : V) (entries : List (ℕ × V))
      → get_row row (put_row new value entries)
        ≡ or_earlier (if new == row then some value else none) (get_row row entries)
  get_row-put_row row new value [] = ground (arith)
  get_row-put_row row new value ((old, was) ∷ rest) =
      ground (get_row-put_row row new value rest, arith)

get_row-rank_rows :
    (row start : ℕ) (xs : List ℕ) (ranks : List (ℕ × ℕ))
    → get_row row (rank_rows start xs ranks) ≡ or_earlier (place start row xs) (get_row row ranks)
unfolding rank_rows
get_row-rank_rows row start [] ranks = refl
get_row-rank_rows row start (x ∷ xs) ranks =
    get_row-rank_rows row (start + 1) xs (put_row x start ranks)
    ∙ ap (or_earlier (place (start + 1) row xs)) (get_row-put_row row x start ranks)
    ∙ or_earlier_assoc (place (start + 1) row xs) _ _

get_row-scores_of :
    (row : ℕ) (xs : List (ℕ × ℤ)) (scores : List (ℕ × ℤ))
    → get_row row (scores_of xs scores) ≡ or_earlier (dense_of row xs) (get_row row scores)
unfolding scores_of
get_row-scores_of row [] scores = refl
get_row-scores_of row ((x, score) ∷ xs) scores =
    get_row-scores_of row xs (put_row x score scores)
    ∙ ap (or_earlier (dense_of row xs)) (get_row-put_row row x score scores)
    ∙ or_earlier_assoc (dense_of row xs) _ _

-- How often a row stands in a list.
abbrev pub times : ℕ → List ℕ → ℕ
times row [] = 0
times row (x ∷ xs) = (if x == row then 1 else 0) + times row xs

times-append : (row : ℕ) (xs ys : List ℕ) → times row (xs ++ ys) ≡ times row xs + times row ys
times-append row [] ys = omega arith
times-append row (x ∷ xs) ys = omega (arith, times-append row xs ys)

times-keep :
    (row : ℕ) (p : ℕ → Bool) (xs : List ℕ)
    → times row (keep p xs) ≡ (if p row then times row xs else 0)
times-keep row p [] = if_both (λ n. 0 ≡ n) (p row) 0 0 refl refl
times-keep row p (x ∷ xs) = elim (Bool-cases (x == row)) [
  | inl e ↦ let same : x ≡ row = (==_iff x row).0 e in rw same (ground (arith, times-keep row p xs))
  | inr e ↦ rw e (ground (arith, times-keep row p xs))
]

times-put_row :
    (row new value : ℕ) (entries : List (ℕ × ℕ))
    → times row (rows_of (put_row new value entries))
      ≡ (if new == row && not (is_some (get_row row entries)) then 1 else 0)
        + times row (rows_of entries)
times-put_row row new value [] = ground arith
times-put_row row new value ((old, was) ∷ rest) = ground (times-put_row row new value rest, arith)

times-rank_rows :
    (row start : ℕ) (xs : List ℕ) (ranks : List (ℕ × ℕ))
    → times row (rows_of ranks) ≡ (if is_some (get_row row ranks) then 1 else 0)
    → times row (rows_of (rank_rows start xs ranks))
      ≡ (if is_some (get_row row (rank_rows start xs ranks)) then 1 else 0)
unfolding rank_rows
times-rank_rows row start [] ranks h = h
times-rank_rows row start (x ∷ xs) ranks h =
    times-rank_rows row (start + 1) xs (put_row x start ranks)
      (ground (times-put_row row x start ranks, get_row-put_row row x start ranks, h, arith))

-- How many elements of a list pass a test.
abbrev pub count : (Entry → Bool) → List Entry → ℕ
count p [] = 0
count p (e ∷ xs) = (if p e then 1 else 0) + count p xs

-- `1 / (60 + rank)` summed over the arms in which a row has a rank.
abbrev pub IsFused : Option ℕ → Option ℕ → Ratio → Type 0
IsFused none none q = q.num ≡ 0
IsFused (some r) none q = (q.num ≡ 1) × (q.den ≡ 60 + r)
IsFused none (some s) q = (q.num ≡ 1) × (q.den ≡ 60 + s)
IsFused (some r) (some s) q = (q.num ≡ (60 + r) + (60 + s)) × (q.den ≡ (60 + r) * (60 + s))

rrf_score-IsFused : (r s : Option ℕ) → IsFused r s (rrf_score (given r (given s [])))
unfolding rrf_score
rrf_score-IsFused none none = refl
rrf_score-IsFused (some r) none = (omega arith, omega arith)
rrf_score-IsFused none (some s) = (omega arith, omega arith)
rrf_score-IsFused (some r) (some s) = (omega arith, ap ((60 + r) *◌) (omega arith))

pub get_row-place : (row : ℕ) (xs : List ℕ) → get_row row (rank_rows 1 xs []) ≡ place 1 row xs
get_row-place row xs = get_row-rank_rows row 1 xs [] ∙ or_earlier-none (place 1 row xs)

abbrev or_zero : Option ℤ → ℤ
or_zero none = pos 0
or_zero (some score) = score

or_zero-score_or_zero : (o : Option ℤ) → score_or_zero o ≡ or_zero o
or_zero-score_or_zero none = refl
or_zero-score_or_zero (some score) = refl

module _ (stored : ℕ → Option ℤ) (dense : List (ℕ × ℤ)) (lexical : List ℕ) where
  -- The score of a row: the dense arm's, or else that of its stored embedding, or else zero.
  abbrev pub score_of : ℕ → ℤ
  score_of row = or_zero (or_earlier (dense_of row dense) (stored row))

  -- Its places in the arms.
  abbrev pub dense_place : ℕ → Option ℕ
  dense_place row = place 1 row (rows_of dense)

  abbrev pub lexical_place : ℕ → Option ℕ
  lexical_place row = place 1 row lexical

  pub record IsCandidate (e : Entry) : Type 0 where
    pub fused : IsFused (dense_place e.rowid) (lexical_place e.rowid) e.fused
    pub dense_score : e.dense_score ≡ score_of e.rowid
    pub bm25_rank : e.bm25_rank ≡ lexical_place e.rowid

  score_filled :
      (row : ℕ) (o : Option ℤ)
      → score_or_zero (filled stored o row) ≡ or_zero (or_earlier o (stored row))
  score_filled row none = or_zero-score_or_zero (stored row)
  score_filled row (some score) = refl

  score-IsCandidate :
      (row : ℕ)
      → IsCandidate (
          score_entry stored
            (scores_of dense [])
            (rank_rows 1 (rows_of dense) [])
            (rank_rows 1 lexical [])
            row)
  score-IsCandidate row =
      let d : get_row row (scores_of dense []) ≡ dense_of row dense =
        get_row-scores_of row dense [] ∙ or_earlier-none (dense_of row dense) in
      let r = get_row-place row (rows_of dense) in
      let l = get_row-place row lexical in
      record {
        fused = rw (r, l) (rrf_score-IsFused (dense_place row) (lexical_place row));
        dense_score = rw d (score_filled row (dense_of row dense));
        bm25_rank = l;
      }

  abbrev dense_ranks : List (ℕ × ℕ)
  dense_ranks = rank_rows 1 (rows_of dense) []

  abbrev bm25_ranks : List (ℕ × ℕ)
  bm25_ranks = rank_rows 1 lexical []

  abbrev candidates : List ℕ
  candidates =
      rows_of dense_ranks
      ++ keep (λ rowid. not (is_some (get_row rowid dense_ranks))) (rows_of bm25_ranks)

  either :
      {here there kept : ℕ} {ranked found placed_here placed_there : Option ℕ}
      → kept ≡ (if not (is_some ranked) then there else 0)
      → here ≡ (if is_some ranked then 1 else 0)
      → there ≡ (if is_some found then 1 else 0)
      → ranked ≡ placed_here
      → found ≡ placed_there
      → here + kept ≡ (if is_some placed_here || is_some placed_there then 1 else 0)
  either k h t r f = rw (k, h, t, r, f) (ground arith)

  times-candidates :
      (row : ℕ)
      → times row candidates
        ≡ (if is_some (dense_place row) || is_some (lexical_place row) then 1 else 0)
  times-candidates row =
      times-append row (rows_of dense_ranks) _
      ∙ either
          (times-keep row (λ rowid. not (is_some (get_row rowid dense_ranks))) (rows_of bm25_ranks))
          (times-rank_rows row 1 (rows_of dense) [] refl) (times-rank_rows row 1 lexical [] refl)
          (get_row-place row (rows_of dense)) (get_row-place row lexical)

  -- A row of one of the arms whose score is at least the threshold.
  abbrev pub is_wanted : ℤ → ℕ → Bool
  is_wanted least row =
      (is_some (dense_place row) || is_some (lexical_place row)) && not (ltb_ℤ (score_of row) least)

  abbrev entry_of : ℕ → Entry
  entry_of row = score_entry stored (scores_of dense []) dense_ranks bm25_ranks row

  count-keep :
      (least : ℤ) (row : ℕ) (xs : List ℕ)
      → count (λ e. e.rowid == row) (keep (λ e. not (ltb_ℤ e.dense_score least)) (map entry_of xs))
        ≡ (if ltb_ℤ (score_of row) least then 0 else times row xs)
  count-keep least row [] = if_both (λ n. 0 ≡ n) (ltb_ℤ (score_of row) least) 0 0 refl refl
  count-keep least row (x ∷ xs) = elim (Bool-cases (x == row)) [
    | inl e ↦
        let same : x ≡ row = (==_iff x row).0 e in
        let score = (score-IsCandidate row).dense_score in
        rw (same, score) (ground (arith, count-keep least row xs))
    | inr e ↦ elim (Bool-cases (ltb_ℤ (entry_of x).dense_score least)) [
      | inl b ↦ rw (e, b) (ground (arith, count-keep least row xs))
      | inr b ↦ rw (e, b) (ground (arith, count-keep least row xs, e))
    ]
  ]

  -- Each row of the arms that reaches the threshold has one entry, and no other row has one.
  pub count-scored :
      (least : ℤ) (row : ℕ)
      → count
          (λ e. e.rowid == row)
          (keep (λ e. not (ltb_ℤ e.dense_score least)) (scored stored dense lexical))
        ≡ (if is_wanted least row then 1 else 0)
  unfolding scored
  count-scored least row = count-keep least row candidates ∙ ground (arith, times-candidates row)

  All-keep :
      (P : Entry → Type 0) (p : Entry → Bool) (f : ℕ → Entry) (xs : List ℕ)
      → ((x : ℕ) → P (f x))
      → All P (keep p (map f xs))
  All-keep P p f [] h = tt
  All-keep P p f (x ∷ xs) h =
      if_both (All P) (p (f x)) _ _ (h x, All-keep P p f xs h) (All-keep P p f xs h)

  pub scored-AllCandidates :
      (least : ℤ)
      → All IsCandidate (keep (λ e. not (ltb_ℤ e.dense_score least)) (scored stored dense lexical))
  unfolding scored
  scored-AllCandidates least = All-keep IsCandidate _ entry_of candidates score-IsCandidate
