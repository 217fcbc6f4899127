-- ===== src/Session/Recent/Order.antt =====
-- The order and the number of the turns that `recent` returns (src/hrmosaic/agent/session.py).
use quantic_mosaic.Prelude.{
  ℕ, zero, suc, ◌+◌, ◌≤◌, ◌≡◌, refl, inl, inr, ◌&&◌, List, [], ◌∷◌, String, str_eq, map, keep, take,
  length, leb, leb→le, arith, max, Bool-cases,
}
use quantic_mosaic.Session.{PriorTurn}
use quantic_mosaic.Session.Recent.{
  TurnRow, Tables, insert_down, order_down, reversed_onto, prior_turn, is_closed, recent_rows,
  recent,
}

module _ {A : Type 0} (seq : A → ℕ) where
  -- In falling order from a bound on, and in rising order from a bound on.
  abbrev pub Falls : ℕ → List A → Type 0
  Falls bound [] = Unit
  Falls bound (x ∷ xs) = (seq x ≤ bound) × Falls (seq x) xs

  abbrev pub Rises : ℕ → List A → Type 0
  Rises bound [] = Unit
  Rises bound (x ∷ xs) = (bound ≤ seq x) × Rises (seq x) xs

  insert-Falls :
      (bound : ℕ) (e : A) (xs : List A)
      → seq e ≤ bound
      → Falls bound xs
      → Falls bound (insert_down seq e xs)
  unfolding insert_down
  insert-Falls bound e [] le h = (le, tt)
  insert-Falls bound e (x ∷ xs) le h = elim (Bool-cases (leb (seq x) (seq e))) [
    | inl t ↦ rw t (le, (leb→le _ _ t, h.1))
    | inr f ↦ rw f (h.0, insert-Falls (seq x) e xs (ground (arith, f)) h.1)
  ]

  abbrev top : List A → ℕ
  top [] = 0
  top (x ∷ xs) = max (seq x) (top xs)

  Falls-weaken : (a b : ℕ) (xs : List A) → a ≤ b → Falls a xs → Falls b xs
  Falls-weaken a b [] le h = tt
  Falls-weaken a b (x ∷ xs) le h = (omega (arith, le, h.0), h.1)

  Rises-weaken : (a b : ℕ) (xs : List A) → b ≤ a → Rises a xs → Rises b xs
  Rises-weaken a b [] le h = tt
  Rises-weaken a b (x ∷ xs) le h = (omega (arith, le, h.0), h.1)

  order-Falls : (xs : List A) → Falls (top xs) (order_down seq xs)
  unfolding order_down
  order-Falls [] = tt
  order-Falls (x ∷ xs) = insert-Falls (max (seq x) (top xs)) x (order_down seq xs) (omega arith) (
      Falls-weaken (top xs) (max (seq x) (top xs)) (order_down seq xs) (omega arith)
        (order-Falls xs))

  take-Falls : (n bound : ℕ) (xs : List A) → Falls bound xs → Falls bound (take n xs)
  take-Falls zero bound xs h = tt
  take-Falls (suc n) bound [] h = tt
  take-Falls (suc n) bound (x ∷ xs) h = (h.0, take-Falls n (seq x) xs h.1)

  reversed-Rises :
      (bound : ℕ) (xs done : List A)
      → Falls bound xs
      → Rises bound done
      → Rises 0 (reversed_onto xs done)
  unfolding reversed_onto
  reversed-Rises bound [] done h r = Rises-weaken bound 0 done (omega arith) r
  reversed-Rises bound (x ∷ xs) done h r =
      reversed-Rises (seq x) xs (x ∷ done) h.1 (omega arith, Rises-weaken bound (seq x) done h.0 r)

module _ {A : Type 0} where
  length-take : (n : ℕ) (xs : List A) → length (take n xs) ≤ n
  length-take zero xs = omega arith
  length-take (suc n) [] = omega arith
  length-take (suc n) (x ∷ xs) = omega (arith, length-take n xs)

  length-reversed : (xs done : List A) → length (reversed_onto xs done) ≡ length xs + length done
  unfolding reversed_onto
  length-reversed [] done = omega arith
  length-reversed (x ∷ xs) done = omega (arith, length-reversed xs (x ∷ done))

length-map : (f : TurnRow → PriorTurn) (xs : List TurnRow) → length (map f xs) ≡ length xs
length-map f [] = refl
length-map f (x ∷ xs) = omega (arith, length-map f xs)

map-Rises :
    (tables : Tables) (bound : ℕ) (rows : List TurnRow)
    → Rises (λ (row : TurnRow). row.seq) bound rows
    → Rises (λ (turn : PriorTurn). turn.seq) bound (map (prior_turn tables) rows)
unfolding prior_turn
map-Rises tables bound [] h = tt
map-Rises tables bound (row ∷ rows) h = (h.0, map-Rises tables row.seq rows h.1)

-- `recent` returns at most `limit` turns, oldest first.
pub recent-Rises :
    (tables : Tables) (session_id : String) (limit : ℕ)
    → (length (recent tables session_id limit) ≤ limit)
      × Rises (λ (turn : PriorTurn). turn.seq) 0 (recent tables session_id limit)
unfolding recent recent_rows
recent-Rises tables session_id limit =
    let chosen = keep (λ row. str_eq row.session_id session_id && is_closed row) tables.turns in
    let ordered = order_down (λ (row : TurnRow). row.seq) chosen in
    (
      rw length-map
          (omega (arith, length-reversed (take limit ordered) [], length-take limit ordered)),
      map-Rises tables 0 (reversed_onto (take limit ordered) []) (
          reversed-Rises (λ (row : TurnRow). row.seq) _ (take limit ordered) []
            (take-Falls (λ (row : TurnRow). row.seq) limit _ ordered
              (order-Falls (λ (row : TurnRow). row.seq) chosen))
            tt),
    )
