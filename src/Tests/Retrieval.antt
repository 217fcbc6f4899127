-- ===== src/Tests/Retrieval.antt =====
-- One retrieval (src/hrmosaic/rag/retrieve.py) over four rows.
use quantic_mosaic.Prelude.{
  ℕ, ◌≡◌, refl, Option, none, some, List, [], ◌∷◌, ◌++◌, map, ◌==◌, if◌then◌else◌,
}
use quantic_mosaic.Prelude.Int.{ℤ, pos}
use quantic_mosaic.Retrieval.{Entry, retrieve}
use quantic_mosaic.Retrieval.Ranked.{IsNumbered, IsRanking, retrieve-IsRanking}

-- Row 9 is only in the text arm, and row 8 has no embedding.
abbrev stored : ℕ → Option ℤ
stored rowid = if rowid == 9 then some (pos 66) else none

abbrev dense : List (ℕ × ℤ)
dense = (4, pos 80) ∷ (5, pos 70) ∷ []

abbrev lexical : List ℕ
lexical = 5 ∷ 9 ∷ 8 ∷ []

ranks : map (λ h. h.entry.rowid) (retrieve stored 2 (pos 50) dense lexical) ≡ 5 ∷ 4 ∷ []
unfolding retrieve
ranks = refl

retrieve-IsRanking_example :
    (hits : List Entry) × (rest : List Entry) × IsNumbered 1
      (retrieve stored 2 (pos 50) dense lexical)
      hits
    × IsRanking stored dense lexical (pos 50) 2 (hits ++ rest) hits
retrieve-IsRanking_example = retrieve-IsRanking stored dense lexical (pos 50) 2
