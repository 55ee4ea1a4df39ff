-- ===== src/Core/Traverse/Stops.antt =====
-- engraphy/core/traverse.py: the recursive query ends.
use engraphy.Base.{
  ℕ, zero, suc, ◌+◌, ◌≤◌, ◌≡◌, refl, ap, ◌∙◌, Bool, false, List, [], ◌∷◌, ◌++◌, map, keep, nat_eq,
  All, In-All, All-In, In-map, arith,
}
use mathlib.Core.Path.{subst}
use engraphy.Core.Store.{Db, Session}
use engraphy.Core.Traverse.{
  Steps, Walked, first_row, first_rows, next_row, next_of, next_rows, rounds, walk,
}
use engraphy.Core.Traverse.Walk.{In-next_rows, next_of-depth}

keep-none : {A : Type 0} (p : A → Bool) (xs : List A) → ((x : A) → p x ≡ false) → keep p xs ≡ []
keep-none p [] h = refl
keep-none p (x ∷ xs) h = rw (h x) (keep-none p xs h)

append-nil : {A : Type 0} (xs : List A) → xs ++ [] ≡ xs
append-nil [] = refl
append-nil (x ∷ xs) = ap (λ l. x ∷ l) (append-nil xs)

module _ (s : Session) (q : Steps) (db : Db) where
  next_of-none : (w : Walked) → q.max_depth ≤ w.depth → next_of s q db w ≡ []
  unfolding next_of
  next_of-none w deep = ap (map (next_row w)) (keep-none _ db.edges (λ e. ground (arith, deep)))

  next_rows-none :
      (level : List Walked) → All (λ w. q.max_depth ≤ w.depth) level → next_rows s q db level ≡ []
  unfolding next_rows
  next_rows-none [] h = refl
  next_rows-none (w ∷ ws) (p, ps) = rw (next_of-none w p) (next_rows-none ws ps)

  rounds-nil : (n : ℕ) → rounds s q db n [] ≡ []
  unfolding rounds next_rows
  rounds-nil zero = refl
  rounds-nil (suc n) = rounds-nil n

  rounds-done :
      (n : ℕ) (level : List Walked)
      → All (λ w. q.max_depth ≤ w.depth) level
      → rounds s q db n level ≡ level
  unfolding rounds
  rounds-done zero level h = refl
  rounds-done (suc n) level h =
      ap (λ l. level ++ rounds s q db n l) (next_rows-none level h)
      ∙ ap (λ l. level ++ l) (rounds-nil n)
      ∙ append-nil level

  rounds-stop :
      (n m d : ℕ) (level : List Walked)
      → All (λ w. w.depth ≡ d) level
      → n ≤ m
      → q.max_depth ≤ d + n
      → rounds s q db m level ≡ rounds s q db n level
  unfolding rounds
  rounds-stop zero m d level h le enough =
      rounds-done m level
        (In-All _ level (λ w i. let at = All-In (λ w. w.depth ≡ d) w level i h in omega arith))
  rounds-stop (suc n) zero d level h le enough = absurd (omega arith)
  rounds-stop (suc n) (suc m) d level h le enough =
      ap (λ l. level ++ l)
        (rounds-stop n m (d + 1) (next_rows s q db level)
          (In-All _ _ (λ v i.
            let (w, here, from) = In-next_rows s q db v level i in
            let at = All-In (λ w. w.depth ≡ d) w level here h in
            let (up, room) = next_of-depth s q db w v from in omega arith))
          (omega arith) (omega arith))

  -- The query ends: rounds beyond `max_depth` of them add no row.
  pub rounds-walk : (m : ℕ) → q.max_depth ≤ m → rounds s q db m (first_rows s q db) ≡ walk s q db
  unfolding walk first_rows first_row
  rounds-walk m enough =
      rounds-stop q.max_depth m 1 (first_rows s q db)
        (In-All _ _ (λ v i.
          let (e, kept, made) = In-map (first_row q.start) v _ i in
          subst (λ x. x.depth ≡ 1) made refl))
        enough (omega arith)
