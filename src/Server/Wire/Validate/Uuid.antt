-- ===== src/Server/Wire/Validate/Uuid.antt =====
-- engraphy/server/wire_types.py: what `_UUID_RE` accepts, said without the pattern.
use engraphy.Base.{
  ℕ, zero, suc, ◌≤◌, ◌≡◌, refl, ap, ◌⊎◌, inl, inr, Bool, true, List, [], ◌∷◌, ◌++◌, length, nat_eq,
  All, arith, ==-eq,
}
use engraphy.Core.AttrSpec.{at_end}
use engraphy.Server.Wire.Validate.{is_hex, hex_run, dash_then, uuid_re}

-- A digit of the base sixteen, by its code.
abbrev pub IsHex : ℕ → Type 0
IsHex c = ((48 ≤ c) × (c ≤ 57)) ⊎ (((97 ≤ c) × (c ≤ 102)) ⊎ ((65 ≤ c) × (c ≤ 70)))

-- So many digits.
abbrev pub IsRun : ℕ → List ℕ → Type 0
IsRun n cs = (length cs ≡ n) × All IsHex cs

-- The end of the text, or one newline and the end.
abbrev pub IsEnd : List ℕ → Type 0
IsEnd cs = (cs ≡ []) ⊎ (cs ≡ 10 ∷ [])

-- Five runs of 8, 4, 4, 4 and 12 digits with dashes between them, and the end.
abbrev pub IsUuid : List ℕ → Type 0
IsUuid cs =
    (a : List ℕ) × (b : List ℕ) × (c : List ℕ) × (d : List ℕ) × (e : List ℕ) × (t : List ℕ) × IsRun
      8 a
    × IsRun 4 b
    × IsRun 4 c
    × IsRun 4 d
    × IsRun 12 e
    × IsEnd t
    × (cs ≡ a ++ 45 ∷ (b ++ 45 ∷ (c ++ 45 ∷ (d ++ 45 ∷ (e ++ t)))))

is_hex-IsHex : (c : ℕ) → is_hex c ≡ true → IsHex c
unfolding is_hex
is_hex-IsHex c h = ground (arith, h)

hex_run-IsRun :
    (n : ℕ) (rest : List ℕ → Bool) (cs : List ℕ)
    → hex_run n rest cs ≡ true
    → (g : List ℕ) × (t : List ℕ) × IsRun n g × (cs ≡ g ++ t) × (rest t ≡ true)
unfolding hex_run
hex_run-IsRun zero rest cs h = ([], cs, (refl, tt), refl, h)
hex_run-IsRun (suc n) rest [] h = cc
hex_run-IsRun (suc n) rest (c ∷ cs) h =
    let digit : is_hex c ≡ true = ground (arith, h) in
    let later : hex_run n rest cs ≡ true = ground (arith, h) in
    let (g, t, (long, digits), e, r) = hex_run-IsRun n rest cs later in
    (c ∷ g, t, (ap suc long, (is_hex-IsHex c digit, digits)), ap (λ x. c ∷ x) e, r)

dash_then-tail :
    (rest : List ℕ → Bool) (cs : List ℕ)
    → dash_then rest cs ≡ true
    → (t : List ℕ) × (cs ≡ 45 ∷ t) × (rest t ≡ true)
unfolding dash_then
dash_then-tail rest [] h = cc
dash_then-tail rest (c ∷ cs) h =
    (cs, ap (λ x. x ∷ cs) (==-eq c 45 (ground (arith, h))), ground (arith, h))

at_end-IsEnd : (cs : List ℕ) → at_end cs ≡ true → IsEnd cs
unfolding at_end
at_end-IsEnd [] h = inl refl
at_end-IsEnd (c ∷ []) h = inr (ap (λ x. x ∷ []) (==-eq c 10 (ground (arith, h))))
at_end-IsEnd (c ∷ d ∷ cs) h = cc

pub uuid_re-IsUuid : (cs : List ℕ) → uuid_re cs ≡ true → IsUuid cs
unfolding uuid_re
uuid_re-IsUuid cs h =
    let (a, t1, ra, e1, h1) = hex_run-IsRun 8 _ cs h in
    let (u1, f1, k1) = dash_then-tail _ t1 h1 in
    let (b, t2, rb, e2, h2) = hex_run-IsRun 4 _ u1 k1 in
    let (u2, f2, k2) = dash_then-tail _ t2 h2 in
    let (c, t3, rc, e3, h3) = hex_run-IsRun 4 _ u2 k2 in
    let (u3, f3, k3) = dash_then-tail _ t3 h3 in
    let (d, t4, rd, e4, h4) = hex_run-IsRun 4 _ u3 k3 in
    let (u4, f4, k4) = dash_then-tail _ t4 h4 in
    let (e, t, re, e5, h5) = hex_run-IsRun 12 _ u4 k4 in
    (a, b, c, d, e, t, ra, rb, rc, rd, re, at_end-IsEnd t h5, cc)
