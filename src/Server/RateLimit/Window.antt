-- ===== src/Server/RateLimit/Window.antt =====
-- Facts about one bucket: pruning an ordered bucket keeps exactly the events of the window.
use engraphy.Base.{
  ℕ, ◌+◌, ◌≤◌, ◌<◌, ◌≡◌, refl, Bool, List, [], ◌∷◌, ◌++◌, leb, ltb, keep, All, arith, Bool-cases,
  inl, inr,
}
use engraphy.Server.RateLimit.{window, prune}

-- Oldest first.
abbrev pub IsOrdered : List ℕ → Type 0
IsOrdered [] = Unit
IsOrdered (t ∷ ts) = All (λ u. t ≤ u) ts × IsOrdered ts

keep-live_of_first :
    (now t : ℕ) (ts : List ℕ)
    → now < t + window
    → All (λ u. t ≤ u) ts
    → keep (λ u. ltb now (u + window)) ts ≡ ts
keep-live_of_first now t [] live h = refl
keep-live_of_first now t (u ∷ us) live h = ground (arith, keep-live_of_first now t us live h.1)

-- The loop that stops at the first live event drops just what a filter would drop.
pub prune-eq-keep :
    (now : ℕ) (ts : List ℕ) → IsOrdered ts → prune now ts ≡ keep (λ u. ltb now (u + window)) ts
unfolding prune
prune-eq-keep now [] o = refl
prune-eq-keep now (t ∷ ts) o = ground (arith, prune-eq-keep now ts o.1, keep-live_of_first now t ts)

pub prune-IsOrdered : (now : ℕ) (ts : List ℕ) → IsOrdered ts → IsOrdered (prune now ts)
unfolding prune
prune-IsOrdered now [] o = tt
prune-IsOrdered now (t ∷ ts) o = ground (arith, prune-IsOrdered now ts o.1)

pub All-append {ℓ κ} :
    {A : Type ℓ} (P : A → Type κ) (xs ys : List A) → All P xs → All P ys → All P (xs ++ ys)
All-append P [] ys hx hy = hy
All-append P (x ∷ xs) ys hx hy = (hx.0, All-append P xs ys hx.1 hy)

pub All-le_trans : (s t : ℕ) (ts : List ℕ) → s ≤ t → All (λ u. u ≤ s) ts → All (λ u. u ≤ t) ts
All-le_trans s t [] le h = tt
All-le_trans s t (u ∷ us) le h = (omega arith, All-le_trans s t us le h.1)

pub IsOrdered-append :
    (now : ℕ) (ts : List ℕ) → All (λ u. u ≤ now) ts → IsOrdered ts → IsOrdered (ts ++ now ∷ [])
IsOrdered-append now [] h o = (tt, tt)
IsOrdered-append now (t ∷ ts) h o =
    (All-append (λ u. t ≤ u) ts (now ∷ []) o.0 (h.0, tt), IsOrdered-append now ts h.1 o.1)

-- What leaves the window does not come back into it.
pub keep-keep_later :
    (s t : ℕ) (ts : List ℕ)
    → s ≤ t
    → keep (λ u. ltb t (u + window)) (keep (λ u. ltb s (u + window)) ts)
      ≡ keep (λ u. ltb t (u + window)) ts
keep-keep_later s t [] le = refl
keep-keep_later s t (u ∷ us) le = ground (arith, keep-keep_later s t us le)

pub keep-append {ℓ} :
    {A : Type ℓ} (p : A → Bool) (xs ys : List A) → keep p (xs ++ ys) ≡ keep p xs ++ keep p ys
keep-append p [] ys = refl
keep-append p (x ∷ xs) ys = ground (arith, keep-append p xs ys)

pub All-prune : (P : ℕ → Type 0) (now : ℕ) (ts : List ℕ) → All P ts → All P (prune now ts)
unfolding prune
All-prune P now [] h = tt
All-prune P now (t ∷ ts) h = elim (Bool-cases (leb (t + window) now)) [
  | inl old ↦ rw (old, prune) (All-prune P now ts h.1)
  | inr live ↦ rw (live, prune) h
]
