-- ===== src/Pubsub/Laws.antt =====
-- To whom hathor/pubsub.py delivers an event.
use khathor.Prelude.{
  [], ◌∷◌, refl, inl, inr, List, ℕ, Bool, ◌≡◌, if◌then◌else◌, ◌==◌, ◌++◌, map, ◌-◌, Bool-cases,
  ◌&&◌, ltb, ap, ◌+◌, ◌||◌, arith, not, true, ◌∙◌, false, sym,
}
use khathor.Dict.{insert, lookup}
use khathor.Dict.Laws.{lookup-insert}
use khathor.Pubsub.{
  Subscribers, ReactorThread, Delivery, call_now, call_later, call_from_thread, subscribers_of,
  has_fn, remove_fn, subscribe, unsubscribe, deliver, publish, or_empty,
}
use khathor.Bytes.{Bytes, bytes_eq}
use khathor.Bytes.Laws.{eq_of_bytes_eq}

pub data Change : Type 0 where
  subscribes unsubscribes : Bytes → ℕ → Change

unfoldable pub change : Change → Subscribers → Subscribers
change (subscribes key fn) self = subscribe key fn self
change (unsubscribes key fn) self = unsubscribe key fn self

-- `changes` made one after the other.
unfoldable pub changed : List Change → Subscribers → Subscribers
changed [] self = self
changed (c ∷ changes) self = changed changes (change c self)

-- Does the last change of a function and an event subscribe it?
unfoldable pub is_subscribed : Bytes → ℕ → List Change → Bool → Bool
is_subscribed key fn [] subscribed = subscribed
is_subscribed key fn (subscribes k f ∷ changes) subscribed =
    is_subscribed key fn changes ((bytes_eq key k && fn == f) || subscribed)
is_subscribed key fn (unsubscribes k f ∷ changes) subscribed =
    is_subscribed key fn changes (not (bytes_eq key k && fn == f) && subscribed)

abbrev once : Bool → ℕ
once b = if b then 1 else 0

unfoldable pub occurrences : ℕ → List ℕ → ℕ
occurrences fn [] = 0
occurrences fn (f ∷ fns) = once (fn == f) + occurrences fn fns

-- The function of a delivery.
abbrev pub fn_of : Delivery → ℕ
fn_of (call_now fn key) = fn
fn_of (call_later fn key) = fn
fn_of (call_from_thread fn key) = fn

unfoldable pub times_told : ℕ → List Delivery → ℕ
times_told fn [] = 0
times_told fn (d ∷ deliveries) = once (fn == fn_of d) + times_told fn deliveries

times_told-publish :
    (t : ReactorThread) (key : Bytes) (fn : ℕ) (fns : List ℕ)
    → times_told fn (map (deliver t key) fns) ≡ occurrences fn fns
unfolding times_told occurrences deliver
times_told-publish t key fn [] = refl
times_told-publish ReactorThread.main_thread key fn (f ∷ fns) =
    ap (λ n. once (fn == f) + n) (times_told-publish ReactorThread.main_thread key fn fns)
times_told-publish ReactorThread.not_main_thread key fn (f ∷ fns) =
    ap (λ n. once (fn == f) + n) (times_told-publish ReactorThread.not_main_thread key fn fns)
times_told-publish ReactorThread.not_running key fn (f ∷ fns) =
    ap (λ n. once (fn == f) + n) (times_told-publish ReactorThread.not_running key fn fns)

occurrences-append :
    (fn : ℕ) (xs ys : List ℕ) → occurrences fn (xs ++ ys) ≡ occurrences fn xs + occurrences fn ys
unfolding occurrences
occurrences-append fn [] ys = omega arith
occurrences-append fn (x ∷ xs) ys = omega (arith, occurrences-append fn xs ys)

has_fn_iff_occurs : (fn : ℕ) (fns : List ℕ) → has_fn fn fns ≡ ltb 0 (occurrences fn fns)
unfolding has_fn occurrences
has_fn_iff_occurs fn [] = refl
has_fn_iff_occurs fn (f ∷ fns) = ground (arith, has_fn_iff_occurs fn fns)

occurrences-remove_fn :
    (fn g : ℕ) (fns : List ℕ)
    → occurrences fn (remove_fn g fns) ≡ occurrences fn fns - once (fn == g && has_fn g fns)
unfolding occurrences remove_fn has_fn
occurrences-remove_fn fn g [] = ground arith
occurrences-remove_fn fn g (f ∷ fns) = ground (arith, occurrences-remove_fn fn g fns)

subscribers_of-insert :
    (k h : Bytes) (fns : List ℕ) (self : Subscribers)
    → subscribers_of k (insert h fns self) ≡ (if bytes_eq k h then fns else subscribers_of k self)
unfolding subscribers_of or_empty
subscribers_of-insert k h fns self =
    ap or_empty (lookup-insert k h fns self)
    ∙ (elim (Bool-cases (bytes_eq k h)) [ inl e ↦ rw e refl | inr e ↦ rw e refl ])

subscribed_once :
    (fn f : ℕ) (fns : List ℕ) (same s : Bool)
    → occurrences fn fns ≡ once s
    → same ≡ true
    → occurrences fn (if not (has_fn f fns) then fns ++ f ∷ [] else fns)
      ≡ once ((same && fn == f) || s)
unfolding occurrences
subscribed_once fn f fns same s h e =
    ground (arith, has_fn_iff_occurs f fns, occurrences-append fn fns (f ∷ []))

unsubscribed_once :
    (fn f : ℕ) (fns : List ℕ) (same s : Bool)
    → occurrences fn fns ≡ once s
    → same ≡ true
    → occurrences fn (if has_fn f fns then remove_fn f fns else fns)
      ≡ once (not (same && fn == f) && s)
unsubscribed_once fn f fns same s h e =
    ground (arith, has_fn_iff_occurs f fns, occurrences-remove_fn fn f fns)

-- The functions of the event `key` behind a change of the functions of the event `k`.
at_event :
    (key k : Bytes) (fns : List ℕ) (self : Subscribers) {c : Bool}
    → bytes_eq key k ≡ c
    → subscribers_of key (insert k fns self) ≡ (if c then fns else subscribers_of key self)
at_event key k fns self e =
    subscribers_of-insert key k fns self ∙ ap (λ b. if b then fns else subscribers_of key self) e

same_event :
    (key k : Bytes) (self : Subscribers)
    → bytes_eq key k ≡ true
    → subscribers_of k self ≡ subscribers_of key self
same_event key k self e = ap (λ b. subscribers_of b self) (sym (eq_of_bytes_eq key k e))

subscribe-once :
    (key k : Bytes) (fn f : ℕ) (self : Subscribers) (s : Bool)
    → occurrences fn (subscribers_of key self) ≡ once s
    → occurrences fn (subscribers_of key (subscribe k f self))
      ≡ once ((bytes_eq key k && fn == f) || s)
unfolding subscribe
subscribe-once key k fn f self s h = elim (Bool-cases (bytes_eq key k)) [
  | inl e ↦
      ap (occurrences fn) (at_event key k _ self e)
      ∙ subscribed_once fn f (subscribers_of k self) (bytes_eq key k) s
          (ap (occurrences fn) (same_event key k self e) ∙ h) e
  | inr e ↦ ap (occurrences fn) (at_event key k _ self e) ∙ h ∙ rw e refl
]

unsubscribe-once :
    (key k : Bytes) (fn f : ℕ) (self : Subscribers) (s : Bool)
    → occurrences fn (subscribers_of key self) ≡ once s
    → occurrences fn (subscribers_of key (unsubscribe k f self))
      ≡ once (not (bytes_eq key k && fn == f) && s)
unfolding unsubscribe
unsubscribe-once key k fn f self s h = elim (Bool-cases (bytes_eq key k)) [
  | inl e ↦
      ap (occurrences fn) (at_event key k _ self e)
      ∙ unsubscribed_once fn f (subscribers_of k self) (bytes_eq key k) s
          (ap (occurrences fn) (same_event key k self e) ∙ h) e
  | inr e ↦ ap (occurrences fn) (at_event key k _ self e) ∙ h ∙ rw e refl
]

changed-once :
    (key : Bytes) (fn : ℕ) (changes : List Change) (self : Subscribers) (s : Bool)
    → occurrences fn (subscribers_of key self) ≡ once s
    → occurrences fn (subscribers_of key (changed changes self))
      ≡ once (is_subscribed key fn changes s)
unfolding changed change is_subscribed subscribe unsubscribe
changed-once key fn [] self s h = h
changed-once key fn (subscribes k f ∷ changes) self s h =
    changed-once key fn changes _ _ (subscribe-once key k fn f self s h)
changed-once key fn (unsubscribes k f ∷ changes) self s h =
    changed-once key fn changes _ _ (unsubscribe-once key k fn f self s h)

-- After any subscriptions and unsubscriptions of a bus that starts empty, an event is delivered exactly
-- once to a function whose last change for the event subscribes it, and not at all to any other.
pub publish_tells_subscribers_once :
    (t : ReactorThread) (key : Bytes) (fn : ℕ) (changes : List Change)
    → times_told fn (publish t key (changed changes []))
      ≡ (if is_subscribed key fn changes false then 1 else 0)
unfolding publish subscribers_of lookup or_empty occurrences
publish_tells_subscribers_once t key fn changes =
    times_told-publish t key fn (subscribers_of key (changed changes []))
    ∙ changed-once key fn changes [] false refl
