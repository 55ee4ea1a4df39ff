-- ===== src/Server/RateLimit/Refusals.antt =====
-- engraphy/server/auth.py: how `check` refuses a call, and the wait that it names.
use engraphy.Base.{
  ℕ, ◌+◌, ◌*◌, ◌≤◌, ◌<◌, ◌≡◌, refl, ap, true, List, [], ◌∷◌, pos, length, All, arith, string_eq,
}
use native.Mathlib.Decide.{dec_lt}
use engraphy.Base.{ℤ, leb_ℤ}
use engraphy.Server.RateLimit.{
  window, prune, rate_limited, index_error, check_bucket, refuse, kind_eq,
}
use engraphy.Server.RateLimit.Refinement.{is_accepted, check_accepts, check_refuses}

length-prune-le : (now : ℕ) (ts : List ℕ) → length (prune now ts) ≤ length ts
unfolding prune
length-prune-le now [] = omega arith
length-prune-le now (t ∷ ts) = ground (arith, length-prune-le now ts)

-- The wait that a refusal names is over when the oldest event leaves the window.
waited :
    (limit now ms : ℕ) (live : List ℕ)
    → 0 < limit
    → length live ≤ limit
    → refuse live now ≡ rate_limited ms
    → length (prune (now + 1000 * ms) live) < limit
unfolding refuse prune
waited limit now ms [] some_limit fits refused = cc
waited limit now ms (t ∷ ts) some_limit fits refused =
    ground (arith, length-prune-le (now + 1000 * ms) ts)

-- A refused call may be made again after the time that the refusal names, and is then accepted, if
-- no other call of its kind came between and the limit is not 0.
retry_accepted :
    (limit now ms : ℕ) (bucket : List ℕ)
    → 0 < limit
    → length bucket ≤ limit
    → (check_bucket (pos limit) now bucket).0 ≡ rate_limited ms
    → is_accepted
        (check_bucket (pos limit) (now + 1000 * ms) (check_bucket (pos limit) now bucket).1).0
      ≡ true
retry_accepted limit now ms bucket pos_limit fits refused =
    elim (dec_lt (length (prune now bucket)) limit) [
      | yes room ↦ cc (check_accepts limit now bucket room)
      | no full ↦
          let refusal : refuse (prune now bucket) now ≡ rate_limited ms =
            cc (check_refuses limit now bucket full) in
          rw (check_refuses limit now bucket full) (
            ap is_accepted (
              ap (λ v. v.0)
                (check_accepts limit (now + 1000 * ms) _ (
                  waited limit now ms _ pos_limit (omega (arith, length-prune-le now bucket))
                    refusal))))
    ]

empty_bucket :
    (now : ℕ) (bucket : List ℕ) → All (λ t. t + window ≤ now) bucket → prune now bucket ≡ []
unfolding prune
empty_bucket now [] old = refl
empty_bucket now (t ∷ ts) (h, hs) = ground (arith, empty_bucket now ts hs)

-- With a limit of 0 or less, a call that finds no live event ends in Python's IndexError, and not in
-- a refusal.
check_bucket-index_error :
    (limit : ℤ) (now : ℕ) (bucket : List ℕ)
    → leb_ℤ limit (pos 0) ≡ true
    → All (λ t. t + window ≤ now) bucket
    → (check_bucket limit now bucket).0 ≡ index_error
unfolding check_bucket
check_bucket-index_error limit now bucket low old = rw (empty_bucket now bucket old, low) refl
