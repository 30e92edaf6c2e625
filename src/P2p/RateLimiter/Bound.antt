-- ===== src/P2p/RateLimiter/Bound.antt =====
-- How many hits hathor/p2p/rate_limiter.py lets through.
use khathor.Prelude.{
  [], ◌∷◌, ℕ, ◌<◌, List, ◌≤◌, ◌≡◌, arith, ◌+◌, if◌then◌else◌, refl, some, lt→ltb, none, true,
}
use khathor.Errors.{ok, Result, ◌>>=◌}
use khathor.P2p.RateLimiter.{
  Floats, RateLimiterLimit, Hits, RateLimiter, leaked, after_leak, add_hit, leak, next_hit,
}
use khathor.Bytes.{Bytes}
use khathor.Dict.{lookup, insert}
use khathor.Dict.Laws.{lookup-insert_same}
use khathor.Prelude.Int.{ℤ, pos, negsuc, pos_part}

module _ (f : Floats) where
  -- The sum of the weights that a run of hits of one key gets through; each has its time and weight.
  unfoldable pub accepted : Bytes → List (f.Float × ℕ) → RateLimiter f.Float → Result ℕ
  accepted key [] self = ok 0
  accepted key ((now, weight) ∷ calls) self = do
    (allowance, self') ← add_hit f now key weight self
    rest ← accepted key calls self'
    ok ((if allowance then weight else 0) + rest)

  module _ (limit : RateLimiterLimit) where
    -- The hits that leak in the course of the run.
    unfoldable pub leaked_total : Hits f.Float → List (f.Float × ℕ) → ℕ
    leaked_total last [] = 0
    leaked_total last ((now, weight) ∷ calls) =
        pos_part (leaked f limit last now).0 + leaked_total (leak f limit last now weight).1 calls

    after_leak_le : (hits : ℕ) (n : ℤ) → hits ≤ after_leak hits n + pos_part n
    unfolding after_leak
    after_leak_le hits (pos n) = omega arith
    after_leak_le hits (negsuc n) = omega arith

    -- The hit that was let through, and what was in the bucket, are in it or have leaked.
    leak_hits :
        (last : Hits f.Float) (now : f.Float) (weight : ℕ)
        → ((leak f limit last now weight).1.hits ≤ limit.max_hits)
          × (last.hits ≤ limit.max_hits
              → (if (leak f limit last now weight).0 then weight else 0) + last.hits
                ≤ (leak f limit last now weight).1.hits + pos_part (leaked f limit last now).0)
    unfolding leak
    leak_hits last now weight =
        let x = after_leak_le last.hits (leaked f limit last now).0 in ground arith

    module _ (positive : 0 < limit.max_hits) (window : 0 < limit.window_seconds) (key : Bytes) where
      Holds : RateLimiter f.Float → Hits f.Float → Type 0
      Holds self last = (lookup key self.keys ≡ some limit) × (lookup key self.hits ≡ some last)

      add_hit-next :
          (self : RateLimiter f.Float) (last : Hits f.Float) (now : f.Float) (weight : ℕ)
          → Holds self last
          → (self' : RateLimiter f.Float) × (add_hit f now key weight self
              ≡ ok ((leak f limit last now weight).0, self'))
            × Holds self' (leak f limit last now weight).1
      unfolding add_hit next_hit Holds
      add_hit-next self last now weight (k, h) =
          let next = (leak f limit last now weight).1 in
          (
            record self { hits = insert key next self.hits },
            rw (k, add_hit)
                (rw h (
                  rw (lt→ltb 0 limit.window_seconds window)
                    (rw (lt→ltb 0 limit.max_hits positive) refl))),
            (k, lookup-insert_same key next self.hits),
          )

      accepted-bound :
          (calls : List (f.Float × ℕ)) (self : RateLimiter f.Float) (last : Hits f.Float)
          → Holds self last
          → last.hits ≤ limit.max_hits
          → (n : ℕ) × (accepted key calls self ≡ ok n)
            × (n + last.hits ≤ limit.max_hits + leaked_total last calls)
      unfolding accepted leaked_total
      accepted-bound [] self last h b = (0, refl, omega (arith, b))
      accepted-bound ((now, weight) ∷ calls) self last h b =
          let (self', e, h') = add_hit-next self last now weight h in
          let (c, d) = leak_hits last now weight in
          let (n, g, ih) = accepted-bound calls self' (leak f limit last now weight).1 h' c in
          (
            (if (leak f limit last now weight).0 then weight else 0) + n,
            rw e (rw g refl),
            omega (arith, ih, d b),
          )

  add_hit-first :
      (limit : RateLimiterLimit) (key : Bytes) (self : RateLimiter f.Float) (start : f.Float)
      (weight : ℕ)
      → lookup key self.keys ≡ some limit
      → lookup key self.hits ≡ none
      → add_hit f start key weight self
        ≡ ok (
          true,
          record self { hits = insert key (record { hits = weight; time = start }) self.hits },
        )
  unfolding add_hit
  add_hit-first limit key self start weight k fresh = rw (k, add_hit) (rw fresh refl)

  -- A key with a limit, and without a hit so far, gets through hits of a total weight of at most
  -- `max_hits` for the bucket and the hits that leak, whatever times the clock gives and however the
  -- floats are rounded. The calls return; the weight of the first one is at most `max_hits`.
  leaky_bucket_bound :
      (limit : RateLimiterLimit) (key : Bytes) (self : RateLimiter f.Float) (start : f.Float)
      (weight : ℕ) (calls : List (f.Float × ℕ))
      → 0 < limit.max_hits
      → 0 < limit.window_seconds
      → lookup key self.keys ≡ some limit
      → lookup key self.hits ≡ none
      → weight ≤ limit.max_hits
      → (n : ℕ) × (accepted key ((start, weight) ∷ calls) self ≡ ok n)
        × (n ≤ limit.max_hits + leaked_total limit (record { hits = weight; time = start }) calls)
  unfolding accepted Holds
  leaky_bucket_bound limit key self start weight calls positive window k fresh le =
      let first : Hits f.Float = record { hits = weight; time = start } in
      let self' : RateLimiter f.Float = record self { hits = insert key first self.hits } in
      let (n, g, x) =
        accepted-bound limit positive window key calls self' first
          (k, lookup-insert_same key first self.hits) le in
      (
        weight + n,
        rw (add_hit-first limit key self start weight k fresh) (rw g refl),
        omega (arith, x),
      )
