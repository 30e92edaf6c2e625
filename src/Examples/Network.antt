-- ===== src/Examples/Network.antt =====
-- The rate limiter of hathor/p2p/rate_limiter.py and the bus of hathor/pubsub.py on concrete calls.
use khathor.Prelude.{[], ◌∷◌, refl, false, List, ◌≡◌, if◌then◌else◌, ℕ, ◌*◌, ◌+◌, ◌-◌, ◌/◌, ◌%◌}
use khathor.Errors.{ok}
use khathor.Dict.{lookup, insert}
use khathor.P2p.RateLimiter.{
  Floats, RateLimiter, RateLimiterLimit, add_hit, next_hit, leak, leaked, elapsed, new_time,
  after_leak,
}
use khathor.P2p.RateLimiter.Bound.{accepted}
use khathor.Prelude.Int.{pos}
use khathor.Pubsub.{publish, main_thread}
use khathor.Pubsub.Laws.{
  Change, subscribes, unsubscribes, changed, times_told, is_subscribed,
  publish_tells_subscribers_once,
}
use khathor.Bytes.{Bytes, bytes_eq}

abbrev key : Bytes
key = 115 ∷ []

abbrev two_per_ten : RateLimiterLimit
two_per_ten = record { max_hits = 2; window_seconds = 10 }

-- Times in whole seconds.
abbrev seconds : Floats
seconds = record {
  Float = ℕ;
  add = λ a b. a + b;
  sub = λ a b. a - b;
  mul = λ a n. a * n;
  div = λ a n. a / n;
  divmod = λ a n. (pos (a / n), a % n);
}

abbrev limiter : RateLimiter ℕ
limiter = record { keys = (key, two_per_ten) ∷ []; hits = [] }

-- Three hits in a row, of which one is refused, and another one later in the same ten seconds.
abbrev hits : List (ℕ × ℕ)
hits = (100, 1) ∷ (100, 1) ∷ (100, 1) ∷ (105, 1) ∷ []

accepted-hits : accepted seconds key hits limiter ≡ ok 3
unfolding accepted add_hit next_hit leak leaked elapsed new_time after_leak lookup insert bytes_eq
accepted-hits = refl

abbrev changes : List Change
changes = subscribes key 1 ∷ subscribes key 2 ∷ unsubscribes key 1 ∷ subscribes key 2 ∷ []

publish_tells_subscribers_once_example :
    times_told 2 (publish main_thread key (changed changes []))
    ≡ (if is_subscribed key 2 changes false then 1 else 0)
publish_tells_subscribers_once_example = publish_tells_subscribers_once main_thread key 2 changes
