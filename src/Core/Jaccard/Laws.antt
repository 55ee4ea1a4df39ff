-- ===== src/Core/Jaccard/Laws.antt =====
-- engraphy/core/jaccard.py: a text is never new to itself.
use engraphy.Base.{
  ℕ, String, ◌≡◌, refl, true, false, not, List, [], ◌∷◌, length, keep, ==_self, contains, All,
  arith,
}
use engraphy.Core.Jaccard.{Unicode, token_eq, common, union, novel_tokens, tokenize, is_novel}

module _ (d : List (List ℕ)) where
  self-contains :
      (e : List (List ℕ))
      → ((x : List ℕ) → contains e x ≡ true → contains d x ≡ true)
      → All (λ x. contains d x ≡ true) e
  self-contains [] h = tt
  self-contains (x ∷ e) h =
      (h x (ground (arith, ==_self x)), self-contains e (λ y k. h y (ground (arith, k))))

  length-keep-All :
      (e : List (List ℕ))
      → All (λ x. contains d x ≡ true) e
      → length (keep (contains d) e) ≡ length e
  length-keep-All [] h = refl
  length-keep-All (x ∷ e) (h, hs) = ground (arith, length-keep-All e hs)

  length-keep-not :
      (e : List (List ℕ))
      → All (λ x. contains d x ≡ true) e
      → length (keep (λ t. not (contains d t)) e) ≡ 0
  length-keep-not [] h = refl
  length-keep-not (x ∷ e) (h, hs) = ground (arith, length-keep-not e hs)

novel_tokens_self : (d : List (List ℕ)) → novel_tokens d d ≡ false
unfolding novel_tokens common union
novel_tokens_self [] = refl
novel_tokens_self (x ∷ xs) =
    let all = self-contains (x ∷ xs) (x ∷ xs) (λ y h. h) in
    ground (arith, length-keep-All (x ∷ xs) (x ∷ xs) all, length-keep-not (x ∷ xs) (x ∷ xs) all)

-- A body that repeats the whole corpus is not novel, whatever the characters are.
is_novel_self : (u : Unicode) (text : String) → is_novel u text text ≡ false
unfolding is_novel
is_novel_self u text = novel_tokens_self (tokenize u text)
