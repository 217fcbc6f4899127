-- ===== src/Retrieval.antt =====
-- The ranking of one retrieval (`rrf_score` and `retrieve`, src/hrmosaic/rag/retrieve.py). The rows that
-- the two arms return, and the score of a stored embedding, are arguments: the vector index, the text
-- index and the embedding are third-party. A score is a fixed-point number, and a fused score the exact
-- fraction that the source's float rounds.
pub mod Candidates
pub mod Ranked
use quantic_mosaic.Prelude.{
  ℕ, zero, suc, ◌+◌, ◌*◌, Bool, true, false, not, ◌&&◌, ◌||◌, Option, none, some, List, [], ◌∷◌,
  ◌++◌, keep, map, take, ltb, ◌==◌, if◌then◌else◌,
}
use quantic_mosaic.Prelude.Int.{ℤ, pos, ltb_ℤ}

abbrev pub rrf_k0 : ℕ
rrf_k0 = 60

pub record Ratio : Type 0 where
  pub num : ℕ
  pub den : ℕ

-- `rrf_score`, of the ranks in the arms that returned a candidate.
unfoldable pub rrf_score : List ℕ → Ratio
rrf_score [] = record { num = 0; den = 1 }
rrf_score (rank ∷ ranks) =
    let rest = rrf_score ranks in
    record { num = rest.den + rest.num * (rrf_k0 + rank); den = (rrf_k0 + rank) * rest.den }

-- A dictionary by row id: a later entry takes the place of an earlier one.
module _ {ℓ} {V : Type ℓ} where
  abbrev pub put_row : ℕ → V → List (ℕ × V) → List (ℕ × V)
  put_row rowid value [] = (rowid, value) ∷ []
  put_row rowid value ((old, was) ∷ rest) =
      let after = put_row rowid value rest in
      if old == rowid then (old, value) ∷ rest else (old, was) ∷ after

  abbrev pub get_row : ℕ → List (ℕ × V) → Option V
  get_row rowid [] = none
  get_row rowid ((old, value) ∷ rest) =
      let found = get_row rowid rest in if old == rowid then some value else found

  abbrev pub rows_of : List (ℕ × V) → List ℕ
  rows_of entries = map (λ e. e.0) entries

abbrev pub is_some {ℓ} : {A : Type ℓ} → Option A → Bool
is_some none = false
is_some (some a) = true

-- `{rowid: position for position, rowid in enumerate(rows, start=1)}`, on top of what is there.
unfoldable pub rank_rows : ℕ → List ℕ → List (ℕ × ℕ) → List (ℕ × ℕ)
rank_rows position [] ranks = ranks
rank_rows position (rowid ∷ rowids) ranks =
    rank_rows (position + 1) rowids (put_row rowid position ranks)

-- `dict(dense)`.
unfoldable pub scores_of : List (ℕ × ℤ) → List (ℕ × ℤ) → List (ℕ × ℤ)
scores_of [] scores = scores
scores_of ((rowid, score) ∷ more) scores = scores_of more (put_row rowid score scores)

pub record Entry : Type 0 where
  pub rowid : ℕ
  pub fused : Ratio
  pub dense_score : ℤ
  pub bm25_rank : Option ℕ

pub record Hit : Type 0 where
  pub entry : Entry
  pub rank : ℕ

-- The order of the key `(-fused, -dense_score, rowid)`.
abbrev pub less : Ratio → Ratio → Bool
less a b = ltb (a.num * b.den) (b.num * a.den)

unfoldable pub comes_before : Entry → Entry → Bool
comes_before a b =
    if less b.fused a.fused
    then true
    else if less a.fused b.fused
    then false
    else if ltb_ℤ b.dense_score a.dense_score
    then true
    else if ltb_ℤ a.dense_score b.dense_score
    then false
    else ltb a.rowid b.rowid

unfoldable pub insert_ranked : Entry → List Entry → List Entry
unfolding comes_before
insert_ranked e [] = e ∷ []
insert_ranked e (f ∷ rest) =
    let after = insert_ranked e rest in if comes_before f e then f ∷ after else e ∷ f ∷ rest

-- `kept.sort(key=…)`.
unfoldable pub sort_entries : List Entry → List Entry
unfolding insert_ranked
sort_entries [] = []
sort_entries (e ∷ rest) = insert_ranked e (sort_entries rest)

unfoldable pub number_hits : ℕ → List Entry → List Hit
number_hits rank [] = []
number_hits rank (e ∷ rest) = record { entry = e; rank = rank } ∷ number_hits (rank + 1) rest

abbrev pub given : Option ℕ → List ℕ → List ℕ
given none ranks = ranks
given (some rank) ranks = rank ∷ ranks

abbrev pub score_or_zero : Option ℤ → ℤ
score_or_zero none = pos 0
score_or_zero (some score) = score

-- `stored` holds the score of each row whose embedding is stored.
module _ (stored : ℕ → Option ℤ) where
  abbrev pub filled : Option ℤ → ℕ → Option ℤ
  filled none rowid = stored rowid
  filled (some score) rowid = some score

  abbrev pub score_entry : List (ℕ × ℤ) → List (ℕ × ℕ) → List (ℕ × ℕ) → ℕ → Entry
  score_entry dense_scores dense_ranks bm25_ranks rowid = record {
    rowid = rowid;
    fused = rrf_score (given (get_row rowid dense_ranks) (given (get_row rowid bm25_ranks) []));
    dense_score = score_or_zero (filled (get_row rowid dense_scores) rowid);
    bm25_rank = get_row rowid bm25_ranks;
  }

  -- `scored`, of the rows that the dense arm returns with their scores and those of the text arm.
  unfoldable pub scored : List (ℕ × ℤ) → List ℕ → List Entry
  unfolding rrf_score rank_rows scores_of
  scored dense lexical =
      let dense_ranks = rank_rows 1 (rows_of dense) [] in
      let bm25_ranks = rank_rows 1 lexical [] in
      let candidates =
        rows_of dense_ranks
        ++ keep (λ rowid. not (is_some (get_row rowid dense_ranks))) (rows_of bm25_ranks) in
      map (score_entry (scores_of dense []) dense_ranks bm25_ranks) candidates

  -- `retrieve`, from the rows of the arms to the hits.
  unfoldable pub retrieve : ℕ → ℤ → List (ℕ × ℤ) → List ℕ → List Hit
  unfolding scored sort_entries number_hits
  retrieve k min_dense_score dense lexical = number_hits 1 (
      take k (
        sort_entries
          (keep (λ e. not (ltb_ℤ e.dense_score min_dense_score)) (scored dense lexical))))
