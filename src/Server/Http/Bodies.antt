-- ===== src/Server/Http/Bodies.antt =====
-- engraphy/server/app.py: the cap on the body of a capture.
use mathlib.Core.Path.{subst}
use engraphy.Base.{
  ℕ, ◌+◌, ◌≤◌, ◌≡◌, refl, ap, Bool, true, false, ◌||◌, Option, none, some, List, [], ◌∷◌, ◌++◌,
  length, ltb, arith, if◌then◌else◌, Bool-cases, inl, inr, length-append,
}
use engraphy.Server.Http.{read_stream, read_capped_body}

-- The body whole.
abbrev pub joined : List (List ℕ) → List ℕ
joined [] = []
joined (chunk ∷ chunks) = chunk ++ joined chunks

append_assoc : (xs ys zs : List ℕ) → (xs ++ ys) ++ zs ≡ xs ++ (ys ++ zs)
append_assoc [] ys zs = refl
append_assoc (x ∷ xs) ys zs = ap (λ l. x ∷ l) (append_assoc xs ys zs)

append_nil : (xs : List ℕ) → xs ++ [] ≡ xs
append_nil [] = refl
append_nil (x ∷ xs) = ap (λ l. x ∷ l) (append_nil xs)

read_stream-whole :
    (limit : ℕ) (body : List ℕ) (chunks : List (List ℕ))
    → length body ≤ limit
    → read_stream limit body chunks
      ≡ (if ltb limit (length (body ++ joined chunks)) then none else some (body ++ joined chunks))
unfolding read_stream
read_stream-whole limit body [] small =
    let fits : ltb limit (length body) ≡ false = ground (arith, small) in
    rw (append_nil body, fits) refl
read_stream-whole limit body (chunk ∷ chunks) small =
    elim (Bool-cases (ltb limit (length body + length chunk))) [
      | inl long ↦
          let one = length-append body (chunk ++ joined chunks) in
          let two = length-append chunk (joined chunks) in
          let big : ltb limit (length (body ++ (chunk ++ joined chunks))) ≡ true =
            ground (arith, long, one, two) in
          rw (long, big) refl
      | inr fine ↦
          let one = length-append body chunk in
          let fits : length (body ++ chunk) ≤ limit = ground (arith, fine, one) in
          rw fine (
            subst
              (λ b.
                read_stream limit (body ++ chunk) chunks
                ≡ (if ltb limit (length b) then none else some b))
              (append_assoc body chunk (joined chunks))
              (read_stream-whole limit (body ++ chunk) chunks fits))
    ]

pub over : Option ℕ → ℕ → Bool
over none limit = false
over (some declared) limit = ltb limit declared

-- The body of a capture is what was sent, whole, unless its declared length or its own is over the
-- limit, when it is refused, however it comes in chunks.
pub read_capped_body-whole :
    (limit : ℕ) (declared : Option ℕ) (chunks : List (List ℕ))
    → read_capped_body limit declared chunks ≡ (
        if over declared limit || ltb limit (length (joined chunks))
        then none
        else some (joined chunks))
unfolding read_capped_body over
read_capped_body-whole limit none chunks = read_stream-whole limit [] chunks (omega arith)
read_capped_body-whole limit (some declared) chunks = elim (Bool-cases (ltb limit declared)) [
  | inl long ↦ rw long refl
  | inr fine ↦ rw fine (read_stream-whole limit [] chunks (omega arith))
]
