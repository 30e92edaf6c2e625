-- ===== src/P2p/RateLimiter.antt =====
-- hathor/p2p/rate_limiter.py. The clock gives floats, whose operations are a parameter. The hits are
-- whole numbers, as the code has them; below 2 ^ 53 the floats that the code makes of them are exact.
pub mod Bound
use khathor.Prelude.{
  [], ◌∷◌, refl, none, some, true, false, zero, suc, inl, inr, ℕ, Bool, Option, ◌-◌, ◌+◌, ltb, not,
  if◌then◌else◌,
}
use khathor.Errors.{ok, err, Result, ◌>>◌, ◌>>=◌, guard, assertion_error, zero_division_error}
use khathor.Dict.{Dict, lookup, insert, erase}
use khathor.Bytes.{Bytes}
use khathor.Prelude.Int.{ℤ, pos, negsuc}

-- Python's floats. `divmod` by a positive number gives the quotient, which is a whole number, and the
-- remainder; `mul` and `div` are by a number, as a float.
pub record Floats : Type 1 where
  pub Float : Type 0
  pub add : Float → Float → Float
  pub sub : Float → Float → Float
  pub mul : Float → ℕ → Float
  pub div : Float → ℕ → Float
  pub divmod : Float → ℕ → ℤ × Float

pub record RateLimiterLimit : Type 0 where
  pub max_hits : ℕ
  pub window_seconds : ℕ

-- The hits in the bucket, and the time of the last one.
pub record Hits (Float : Type 0) : Type 0 where
  pub hits : ℕ
  pub time : Float

pub record RateLimiter (Float : Type 0) : Type 0 where
  pub keys : Dict RateLimiterLimit
  pub hits : Dict (Hits Float)

module _ {Float : Type 0} where
  unfoldable pub set_limit : Bytes → ℕ → ℕ → RateLimiter Float → Result (RateLimiter Float)
  set_limit key max_hits window_seconds self = do
    guard (ltb 0 window_seconds) assertion_error
    let limit : RateLimiterLimit = record { max_hits = max_hits; window_seconds = window_seconds }
    ok (record self { keys = insert key limit self.keys })

  unfoldable pub get_limit : Bytes → RateLimiter Float → Option RateLimiterLimit
  get_limit key self = lookup key self.keys

  unfoldable pub reset : Bytes → RateLimiter Float → RateLimiter Float
  reset key self = record self { hits = erase key self.hits }

  unfoldable pub unset_limit : Bytes → RateLimiter Float → RateLimiter Float
  unset_limit key self = record (reset key self) { keys = erase key self.keys }

-- new_hits = hits - leaked_hits, and 0 for less
unfoldable pub after_leak : ℕ → ℤ → ℕ
after_leak hits (pos n) = hits - n
after_leak hits (negsuc n) = hits + suc n

module _ (f : Floats) where
  unfoldable pub elapsed : Hits f.Float → f.Float → f.Float
  elapsed last now = f.sub now last.time

  -- leaked_hits, remainder
  unfoldable pub leaked : RateLimiterLimit → Hits f.Float → f.Float → ℤ × f.Float
  leaked limit last now = f.divmod (f.mul (elapsed last now) limit.max_hits) limit.window_seconds

  unfoldable pub new_time : RateLimiterLimit → Hits f.Float → f.Float → f.Float
  new_time limit last now =
      f.sub (f.add last.time (elapsed last now)) (f.div (leaked limit last now).1 limit.max_hits)

  -- The bucket behind the leakage and the new hit.
  unfoldable pub leak : RateLimiterLimit → Hits f.Float → f.Float → ℕ → Bool × Hits f.Float
  leak limit last now weight =
      let new_hits = after_leak last.hits (leaked limit last now).0 + weight in
      let overflows = ltb limit.max_hits new_hits in
      (
        not overflows,
        record {
          hits = if overflows then limit.max_hits else new_hits;
          time = new_time limit last now;
        },
      )

  -- A hit behind another one. Both divisions raise ZeroDivisionError.
  unfoldable pub next_hit :
      RateLimiterLimit → Hits f.Float → f.Float → ℕ → Result (Bool × Hits f.Float)
  next_hit limit last now weight = do
    guard (ltb 0 limit.window_seconds) zero_division_error
    guard (ltb 0 limit.max_hits) zero_division_error
    ok (leak limit last now weight)

  -- `now` is what `self.reactor.seconds()` gives.
  unfoldable pub add_hit :
      f.Float → Bytes → ℕ → RateLimiter f.Float → Result (Bool × RateLimiter f.Float)
  add_hit now key weight self = elim (lookup key self.keys) [
    | none ↦ ok (true, self)
    | some limit ↦ elim (lookup key self.hits) [
      | none ↦
          let first : Hits f.Float = record { hits = weight; time = now } in
          ok (true, record self { hits = insert key first self.hits })
      | some last ↦ (do
        (allowance, next) ← next_hit limit last now weight
        ok (allowance, record self { hits = insert key next self.hits }))
    ]
  ]
