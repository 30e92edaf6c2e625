-- ===== src/Pubsub.antt =====
-- hathor/pubsub.py: who is told of an event. An event is the text of its `HathorEvents` member, and a
-- function is the number that tells it from the others.
pub mod Laws
use khathor.Prelude.{
  [], ◌∷◌, refl, none, some, true, false, zero, suc, inl, inr, ℕ, List, map, if◌then◌else◌, Bool,
  not, ◌==◌, ◌||◌, ◌++◌, Option,
}
use khathor.Dict.{Dict, lookup, insert}
use khathor.Bytes.{Bytes}

pub data ReactorThread : Type 0 where
  main_thread not_main_thread not_running : ReactorThread

abbrev pub Subscribers : Type 0
Subscribers = Dict (List ℕ)

-- What `publish` does with a function: it calls it, or asks the reactor to (`callLater`,
-- `callFromThread`).
pub data Delivery : Type 0 where
  call_now call_later call_from_thread : ℕ → Bytes → Delivery

-- self._subscribers[key], of a defaultdict
unfoldable pub or_empty : Option (List ℕ) → List ℕ
or_empty none = []
or_empty (some fns) = fns

unfoldable pub subscribers_of : Bytes → Subscribers → List ℕ
subscribers_of key subscribers = or_empty (lookup key subscribers)

-- fn in fns
unfoldable pub has_fn : ℕ → List ℕ → Bool
has_fn fn [] = false
has_fn fn (f ∷ fns) = fn == f || has_fn fn fns

-- fns.remove(fn)
unfoldable pub remove_fn : ℕ → List ℕ → List ℕ
remove_fn fn [] = []
remove_fn fn (f ∷ fns) = let rest = remove_fn fn fns in if fn == f then fns else f ∷ rest

unfoldable pub subscribe : Bytes → ℕ → Subscribers → Subscribers
subscribe key fn self =
    let fns = subscribers_of key self in
    insert key (if not (has_fn fn fns) then fns ++ fn ∷ [] else fns) self

unfoldable pub unsubscribe : Bytes → ℕ → Subscribers → Subscribers
unsubscribe key fn self =
    let fns = subscribers_of key self in
    insert key (if has_fn fn fns then remove_fn fn fns else fns) self

unfoldable pub deliver : ReactorThread → Bytes → ℕ → Delivery
deliver not_running key fn = call_now fn key
deliver main_thread key fn = call_later fn key
deliver not_main_thread key fn = call_from_thread fn key

-- The deliveries of one event, where no function that is called changes the subscribers.
unfoldable pub publish : ReactorThread → Bytes → Subscribers → List Delivery
publish reactor_thread key self = map (deliver reactor_thread key) (subscribers_of key self)
