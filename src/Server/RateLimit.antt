-- ===== src/Server/RateLimit.antt =====
-- engraphy/server/auth.py: `RateLimiter` and `FailureTracker`, the sliding windows. A time is a
-- number of microseconds of the monotonic clock; a bucket holds its oldest event first.
pub mod Window
pub mod Refinement
pub mod Failures
pub mod Refusals
use engraphy.Base.{
  ℕ, ◌+◌, ◌-◌, ◌*◌, ◌/◌, ◌≤◌, String, ◌≡◌, Bool, ◌&&◌, List, [], ◌∷◌, ◌++◌, ℤ, pos, leb, leb_ℤ,
  length, ◌==◌, Eq, string_eq, if◌then◌else◌,
}

pub data Kind : Type 0 where
  reads writes : Kind

Kind-discrete : Discrete Kind
Kind-discrete = hlevel

instance unfoldable pub kind_eq : Eq Kind
unfolding Kind-discrete
kind_eq = record { dec = Kind-discrete }

-- `_WINDOW_SECONDS` and `_FAIL_WINDOW_SECONDS`, both 60 seconds
abbrev pub window : ℕ
window = 60000000

-- `_FAIL_THRESHOLD`
abbrev pub fail_threshold : ℕ
fail_threshold = 10

abbrev pub default_read_per_min : ℤ
default_read_per_min = pos 60

abbrev pub default_write_per_min : ℤ
default_write_per_min = pos 30

-- `while bucket and bucket[0] <= now - 60: bucket.popleft()`
unfoldable pub prune : ℕ → List ℕ → List ℕ
prune now [] = []
prune now (t ∷ bucket) =
    let rest = prune now bucket in if leb (t + window) now then rest else t ∷ bucket

-- How one call of `check` ends. `index_error` is Python's, from `bucket[0]` of an empty bucket.
pub data Verdict : Type 0 where
  accepted : Verdict
  rate_limited : ℕ → Verdict
  index_error : Verdict

-- `int((bucket[0] + 60 - now) * 1000) + 1` of an event that is still in the window
unfoldable pub retry_after_ms : ℕ → ℕ → ℕ
retry_after_ms oldest now = (oldest + window - now) / 1000 + 1

pub refuse : List ℕ → ℕ → Verdict
unfolding retry_after_ms
refuse [] now = index_error
refuse (oldest ∷ _) now = rate_limited (retry_after_ms oldest now)

-- What `check` does to the bucket of its token and kind.
unfoldable pub check_bucket : ℤ → ℕ → List ℕ → Verdict × List ℕ
unfolding prune refuse
check_bucket limit now bucket =
    let live = prune now bucket in
    if leb_ℤ limit (pos (length live))
    then (refuse live now, live)
    else (accepted, live ++ now ∷ [])

-- `self._events`, a defaultdict of empty deques
pub record RateLimiter : Type 0 where
  pub events : String → Kind → List ℕ

abbrev pub no_events : RateLimiter
no_events = record { events = λ _ _. [] }

unfoldable pub put_bucket : RateLimiter → String → Kind → List ℕ → RateLimiter
put_bucket r token kind bucket = record {
  events = λ t k. if t == token && k == kind then bucket else r.events t k;
}

limit_of : Kind → ℤ → ℤ → ℤ
limit_of reads read_limit write_limit = read_limit
limit_of writes read_limit write_limit = write_limit

unfoldable pub check : RateLimiter → ℕ → String → Kind → ℤ → ℤ → Verdict × RateLimiter
unfolding check_bucket put_bucket limit_of
check r now token kind read_limit write_limit =
    let (v, bucket) =
      check_bucket (limit_of kind read_limit write_limit) now (r.events token kind) in
    (v, put_bucket r token kind bucket)

-- `self._fails` of the ban list, by source
pub record FailureTracker : Type 0 where
  pub fails : String → List ℕ

abbrev pub no_fails : FailureTracker
no_fails = record { fails = λ _. [] }

put_fails : FailureTracker → String → List ℕ → FailureTracker
put_fails f key bucket = record { fails = λ k. if k == key then bucket else f.fails k }

unfoldable pub is_banned : FailureTracker → ℕ → String → Bool × FailureTracker
unfolding prune put_fails
is_banned f now key =
    let live = prune now (f.fails key) in (leb fail_threshold (length live), put_fails f key live)

unfoldable pub record_failure : FailureTracker → ℕ → String → FailureTracker
unfolding prune put_fails
record_failure f now key = put_fails f key (prune now (f.fails key) ++ now ∷ [])
