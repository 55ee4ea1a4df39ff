-- ===== src/Server/RateLimit/Refinement.antt =====
-- The limiter against its specification, which keeps the whole history of accepted calls and
-- accepts a call while fewer than the limit were accepted in the last 60 seconds.
use engraphy.Base.{
  ℕ, ◌+◌, ◌≤◌, ◌<◌, ◌≡◌, refl, ap, ◌∙◌, Bool, true, false, List, [], ◌∷◌, ◌++◌, pos, ltb, keep,
  length, All, arith, if◌then◌else◌, String, ◌==◌, string_eq, ◌&&◌, Bool-cases, inl, inr,
}
use native.Mathlib.Decide.{dec_lt}
use engraphy.Server.RateLimit.{
  Kind, reads, writes, window, prune, Verdict, accepted, rate_limited, index_error, check_bucket,
  refuse, RateLimiter, no_events, put_bucket, check, kind_eq,
}
use engraphy.Server.RateLimit.Window.{
  IsOrdered, prune-eq-keep, prune-IsOrdered, All-prune, All-le_trans, All-append, IsOrdered-append,
  keep-keep_later, keep-append,
}

-- The accepted calls of the 60 seconds that end at `now`.
abbrev pub recent : ℕ → List ℕ → List ℕ
recent now history = keep (λ t. ltb now (t + window)) history

-- Whether the specification accepts a call at `now`.
abbrev pub admits : ℕ → ℕ → List ℕ → Bool
admits limit now history = ltb (length (recent now history)) limit

abbrev pub spec_bucket : ℕ → ℕ → List ℕ → Bool × List ℕ
spec_bucket limit now history =
    if admits limit now history then (true, history ++ now ∷ []) else (false, history)

abbrev pub is_accepted : Verdict → Bool
is_accepted accepted = true
is_accepted (rate_limited _) = false
is_accepted index_error = false

-- One call of `check`: when, for which token, of which kind.
pub record Call : Type 0 where
  pub now : ℕ
  pub token : String
  pub kind : Kind

abbrev pub limit_at : ℕ → ℕ → Kind → ℕ
limit_at read_limit write_limit reads = read_limit
limit_at read_limit write_limit writes = write_limit

-- The verdicts of the limiter, under the two limits of a space.
pub run : ℕ → ℕ → List Call → RateLimiter → List Bool
run reads_max writes_max [] r = []
run reads_max writes_max (c ∷ calls) r =
    let (v, r') = check r c.now c.token c.kind (pos reads_max) (pos writes_max) in
    is_accepted v ∷ run reads_max writes_max calls r'

abbrev pub History : Type 0
History = String → Kind → List ℕ

abbrev pub put_history : History → String → Kind → List ℕ → History
put_history h token kind times t k = if t == token && k == kind then times else h t k

-- The verdicts of the specification, which forgets nothing.
pub spec_run : ℕ → ℕ → List Call → History → List Bool
spec_run reads_max writes_max [] h = []
spec_run reads_max writes_max (c ∷ calls) h =
    let (b, times) = spec_bucket (limit_at reads_max writes_max c.kind) c.now (h c.token c.kind) in
    b ∷ spec_run reads_max writes_max calls (put_history h c.token c.kind times)

-- A bucket stands for a history, at any time from `now` on.
pub record Matches (now : ℕ) (bucket history : List ℕ) : Type 0 where
  pub ordered : IsOrdered bucket
  pub past : All (λ t. t ≤ now) bucket
  pub same : (later : ℕ) → now ≤ later → recent later bucket ≡ recent later history

-- In time order, from `now` on.
abbrev pub Ascending : ℕ → List Call → Type 0
Ascending now [] = Unit
Ascending now (c ∷ calls) = (now ≤ c.now) × Ascending c.now calls

pub pruned :
    (s now : ℕ) (bucket history : List ℕ)
    → s ≤ now
    → Matches s bucket history
    → prune now bucket ≡ recent now history
pruned s now bucket history le m = prune-eq-keep now bucket m.ordered ∙ m.same now le

pub prune-Matches :
    (s now : ℕ) (bucket history : List ℕ)
    → s ≤ now
    → Matches s bucket history
    → Matches now (prune now bucket) history
prune-Matches s now bucket history le m = record {
  ordered = prune-IsOrdered now bucket m.ordered;
  past = All-prune (λ t. t ≤ now) now bucket (All-le_trans s now bucket le m.past);
  same = λ later h. rw (pruned s now bucket history le m) (keep-keep_later now later history h);
}

pub push-Matches :
    (now : ℕ) (bucket history : List ℕ)
    → Matches now bucket history
    → Matches now (bucket ++ now ∷ []) (history ++ now ∷ [])
push-Matches now bucket history m = record {
  ordered = IsOrdered-append now bucket m.past m.ordered;
  past = All-append (λ t. t ≤ now) bucket (now ∷ []) m.past (omega arith, tt);
  same = λ later h. rw (
    keep-append (λ t. ltb later (t + window)) bucket (now ∷ []),
    keep-append (λ t. ltb later (t + window)) history (now ∷ []),
    m.same later h,
  );
}

pub check_accepts :
    (limit now : ℕ) (bucket : List ℕ)
    → length (prune now bucket) < limit
    → check_bucket (pos limit) now bucket ≡ (accepted, prune now bucket ++ now ∷ [])
unfolding check_bucket
check_accepts limit now bucket h = ground arith

pub check_refuses :
    (limit now : ℕ) (bucket : List ℕ)
    → ¬ (length (prune now bucket) < limit)
    → check_bucket (pos limit) now bucket ≡ (refuse (prune now bucket) now, prune now bucket)
unfolding check_bucket
check_refuses limit now bucket h = ground arith

is_accepted-refuse : (live : List ℕ) (now : ℕ) → is_accepted (refuse live now) ≡ false
unfolding refuse
is_accepted-refuse [] now = refl
is_accepted-refuse (t ∷ ts) now = refl

step-Matches :
    (limit s now : ℕ) (bucket history : List ℕ)
    → s ≤ now
    → Matches s bucket history
    → (is_accepted (check_bucket (pos limit) now bucket).0 ≡ (spec_bucket limit now history).0)
      × Matches now (check_bucket (pos limit) now bucket).1 (spec_bucket limit now history).1
step-Matches limit s now bucket history le m = elim (dec_lt (length (prune now bucket)) limit) [
  | yes room ↦
      let admitted : admits limit now history ≡ true =
        ground (arith, ap length (pruned s now bucket history le m)) in
      rw (check_accepts limit now bucket room, admitted)
        (refl, push-Matches now _ history (prune-Matches s now bucket history le m))
  | no full ↦
      let refused : admits limit now history ≡ false =
        ground (arith, ap length (pruned s now bucket history le m)) in
      rw (check_refuses limit now bucket full, refused)
        (is_accepted-refuse _ now, prune-Matches s now bucket history le m)
]

pub later-Matches :
    (s now : ℕ) (bucket history : List ℕ)
    → s ≤ now
    → Matches s bucket history
    → Matches now bucket history
later-Matches s now bucket history le m = record {
  ordered = m.ordered;
  past = All-le_trans s now bucket le m.past;
  same = λ later h. m.same later (omega arith);
}

abbrev AllMatch : ℕ → RateLimiter → History → Type 0
AllMatch now r h = (t : String) (k : Kind) → Matches now (r.events t k) (h t k)

put-AllMatch :
    (s now : ℕ) (r : RateLimiter) (h : History) (token : String) (kind : Kind) (b times : List ℕ)
    → s ≤ now
    → AllMatch s r h
    → Matches now b times
    → AllMatch now (put_bucket r token kind b) (put_history h token kind times)
unfolding put_bucket
put-AllMatch s now r h token kind b times le all m t k =
    elim (Bool-cases (t == token && k == kind)) [
      | inl here ↦ rw here m
      | inr other ↦ rw other (later-Matches s now _ _ le (all t k))
    ]

check_bucket_of :
    (r : RateLimiter) (c : Call) (reads_max writes_max : ℕ)
    → let v =
        check_bucket (pos (limit_at reads_max writes_max c.kind)) c.now (r.events c.token c.kind) in
      check r c.now c.token c.kind (pos reads_max) (pos writes_max)
      ≡ (v.0, put_bucket r c.token c.kind v.1)
unfolding check
check_bucket_of r c reads_max writes_max = ground arith

run-AllMatch :
    (reads_max writes_max s : ℕ) (calls : List Call) (r : RateLimiter) (h : History)
    → Ascending s calls
    → AllMatch s r h
    → run reads_max writes_max calls r ≡ spec_run reads_max writes_max calls h
unfolding run spec_run
run-AllMatch reads_max writes_max s [] r h up all = refl
run-AllMatch reads_max writes_max s (c ∷ calls) r h up all =
    let limit = limit_at reads_max writes_max c.kind in
    let (same, next) = step-Matches limit s c.now _ _ up.0 (all c.token c.kind) in
    rw (check_bucket_of r c reads_max writes_max, same)
      (cc (
        run-AllMatch reads_max writes_max c.now calls _ _ up.1
          (put-AllMatch s c.now r h c.token c.kind _ _ up.0 all next)))

-- Over any calls in time order, by any tokens, the limiter that forgets gives the verdicts of the
-- history that does not: a call is accepted exactly if fewer than its limit of calls by the same
-- token and of the same kind were accepted in the 60 seconds that end with it.
pub run-eq-spec_run :
    (reads_max writes_max : ℕ) (calls : List Call)
    → Ascending 0 calls
    → run reads_max writes_max calls no_events ≡ spec_run reads_max writes_max calls (λ _ _. [])
run-eq-spec_run reads_max writes_max calls up =
    run-AllMatch reads_max writes_max 0 calls no_events (λ _ _. []) up
      (λ t k. record { ordered = tt; past = tt; same = λ later h. refl })
