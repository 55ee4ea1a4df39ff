-- ===== src/Server/Wire/Validate/Sorts.antt =====
-- What holds of the sorted names holds of the names.
use engraphy.Base.{String, List, [], ◌∷◌, Bool-cases, inl, inr, All}
use engraphy.Core.Json.{text_leb, insert_text, sorted}

module _ (P : String → Type 0) where
  All-of-insert_text : (s : String) (ts : List String) → All P (insert_text s ts) → P s × All P ts
  unfolding insert_text
  All-of-insert_text s [] h = h
  All-of-insert_text s (t ∷ ts) h = elim (Bool-cases (text_leb s t)) [
    | inl before ↦ rw before at h
    | inr after ↦
        let (this, rest) = rw after at h in
        let (new, old) = All-of-insert_text s ts rest in (new, (this, old))
  ]

  pub All-of-sorted : (ss : List String) → All P (sorted ss) → All P ss
  unfolding sorted
  All-of-sorted [] h = tt
  All-of-sorted (s ∷ ss) h =
      let (this, rest) = All-of-insert_text s (sorted ss) h in (this, All-of-sorted ss rest)

  All-insert_text : (s : String) (ts : List String) → P s → All P ts → All P (insert_text s ts)
  unfolding insert_text
  All-insert_text s [] p ps = (p, tt)
  All-insert_text s (t ∷ ts) p (q, ps) = elim (Bool-cases (text_leb s t)) [
    | inl before ↦ rw before (p, (q, ps))
    | inr after ↦ rw after (q, All-insert_text s ts p ps)
  ]

  All-sorted : (ss : List String) → All P ss → All P (sorted ss)
  unfolding sorted
  All-sorted [] h = tt
  All-sorted (s ∷ ss) (p, ps) = All-insert_text s (sorted ss) p (All-sorted ss ps)
