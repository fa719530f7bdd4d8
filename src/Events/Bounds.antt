-- ===== src/Events/Bounds.antt =====
-- agent/events/bus.go: the bounds that every run of the bus keeps, and what a publish delivers.
use qrx_node_suite.Prelude.{
  ℕ, ◌+◌, ◌≤◌, ◌<◌, ◌≡◌, ◌⊎◌, refl, ◌&&◌, Option, none, some, List, [], ◌∷◌, ltb, leb, eqb,
  if◌then◌else◌, length, length-append, arith, Bool-cases, inl, inr,
}
use qrx_node_suite.Events.{
  Subscriber, Bus, offer, deliver, publish, subscribe, try_subscribe, remove, unsubscribe,
  subscriber_count,
}

-- The bus's methods, and a subscriber's receive of its oldest event.
pub data Operation (E : Type 0) : Type 0 where
  op_publish : E → Operation E
  op_subscribe op_try_subscribe : Operation E
  op_unsubscribe op_receive : ℕ → Operation E

module _ {E : Type 0} where
  -- Every queue is within the buffer, and the ids go down strictly from `top`: no two are equal.
  unfoldable pub AreBounded : ℕ → ℕ → List (Subscriber E) → Type 0
  AreBounded size top [] = Unit
  AreBounded size top (s ∷ ss) = (length s.queue ≤ size) × (s.id < top) × AreBounded size s.id ss

  abbrev pub queue_of : ℕ → List (Subscriber E) → Option (List E)
  queue_of i [] = none
  queue_of i (s ∷ ss) = let rest = queue_of i ss in if eqb s.id i then some s.queue else rest

  abbrev pub over : (List E → List E) → Option (List E) → Option (List E)
  over f none = none
  over f (some q) = some (f q)

  -- A publish offers the event to every subscriber: it is appended where the queue has room, and
  -- where the queue is full that subscriber keeps its oldest events and never sees the new one.
  pub queue_of-publish :
      (e : E) (i : ℕ) (b : Bus E)
      → queue_of i (publish e b).subs ≡ over (offer b.buf_size e) (queue_of i b.subs)
  unfolding publish
  queue_of-publish e i b = go b.subs
    where
      go :
          (ss : List (Subscriber E))
          → queue_of i (deliver b.buf_size e ss) ≡ over (offer b.buf_size e) (queue_of i ss)
      go [] = refl
      go (s ∷ ss) = let r = go ss in ground arith

  offer-fits : (size : ℕ) (e : E) (q : List E) → length q ≤ size → length (offer size e q) ≤ size
  unfolding offer
  offer-fits size e q h = let r = length-append q (e ∷ []) in ground arith

  deliver-AreBounded :
      (size top : ℕ) (e : E) (ss : List (Subscriber E))
      → AreBounded size top ss
      → AreBounded size top (deliver size e ss)
  unfolding AreBounded deliver
  deliver-AreBounded size top e [] h = tt
  deliver-AreBounded size top e (s ∷ ss) (h, l, k) =
      (offer-fits size e s.queue h, l, deliver-AreBounded size s.id e ss k)

  raise-AreBounded :
      (size a b : ℕ) (ss : List (Subscriber E))
      → a ≤ b
      → AreBounded size a ss
      → AreBounded size b ss
  unfolding AreBounded
  raise-AreBounded size a b [] p h = tt
  raise-AreBounded size a b (s ∷ ss) p (h, l, k) = (h, omega (arith, l, p), k)

  remove-AreBounded :
      (size top i : ℕ) (ss : List (Subscriber E))
      → AreBounded size top ss
      → AreBounded size top (remove i ss)
  unfolding AreBounded remove
  remove-AreBounded size top i [] h = tt
  remove-AreBounded size top i (s ∷ ss) (h, l, k) = elim (Bool-cases (eqb s.id i)) [
    | inl e ↦ rw e (
        raise-AreBounded size s.id top (remove i ss) (omega (arith, l))
          (remove-AreBounded size s.id i ss k))
    | inr e ↦ rw e (h, l, remove-AreBounded size s.id i ss k)
  ]

  -- Queues within the buffer, and distinct ids that were all given out.
  unfoldable pub IsSound : Bus E → Type 0
  IsSound b = AreBounded b.buf_size (b.next_id + 1) b.subs

  abbrev rest_of : List E → List E
  rest_of [] = []
  rest_of (x ∷ q) = q

  pub take_one : ℕ → List (Subscriber E) → List (Subscriber E)
  take_one i [] = []
  take_one i (s ∷ ss) =
      let rest = take_one i ss in
      if eqb s.id i then record s { queue = rest_of s.queue } ∷ ss else s ∷ rest

  abbrev pub apply : Operation E → Bus E → Bus E
  apply (op_publish e) b = publish e b
  apply op_subscribe b = (subscribe b).1
  apply op_try_subscribe b = (try_subscribe b).1
  apply (op_unsubscribe i) b = unsubscribe i b
  apply (op_receive i) b = record b { subs = take_one i b.subs }

  rest_of-fits : (size : ℕ) (q : List E) → length q ≤ size → length (rest_of q) ≤ size
  rest_of-fits size [] h = h
  rest_of-fits size (x ∷ q) h = omega (arith, h)

  take_one-AreBounded :
      (size top i : ℕ) (ss : List (Subscriber E))
      → AreBounded size top ss
      → AreBounded size top (take_one i ss)
  unfolding AreBounded take_one
  take_one-AreBounded size top i [] h = tt
  take_one-AreBounded size top i (s ∷ ss) (h, l, k) = elim (Bool-cases (eqb s.id i)) [
    | inl e ↦ rw e (rest_of-fits size s.queue h, l, k)
    | inr e ↦ rw e (h, l, take_one-AreBounded size s.id i ss k)
  ]

  pub subscribe-IsSound : (b : Bus E) → IsSound b → IsSound (subscribe b).1
  unfolding subscribe AreBounded IsSound
  subscribe-IsSound b h = (omega arith, omega arith, h)

  try_subscribe-IsSound : (b : Bus E) → IsSound b → IsSound (try_subscribe b).1
  unfolding try_subscribe
  try_subscribe-IsSound b h =
      let k = subscribe-IsSound b h in
      elim (Bool-cases (ltb 0 b.max_subscribers && leb b.max_subscribers (length b.subs))) [
        | inl e ↦ rw e h
        | inr e ↦ rw e k
      ]

  -- Every operation keeps each queue within its buffer and the ids distinct.
  pub apply-IsSound : (o : Operation E) (b : Bus E) → IsSound b → IsSound (apply o b)
  unfolding publish unsubscribe IsSound
  apply-IsSound (op_publish e) b h = deliver-AreBounded b.buf_size (b.next_id + 1) e b.subs h
  apply-IsSound op_subscribe b h = subscribe-IsSound b h
  apply-IsSound op_try_subscribe b h = try_subscribe-IsSound b h
  apply-IsSound (op_unsubscribe i) b h = remove-AreBounded b.buf_size (b.next_id + 1) i b.subs h
  apply-IsSound (op_receive i) b h = take_one-AreBounded b.buf_size (b.next_id + 1) i b.subs h

  -- TrySubscribe refuses exactly at the cap, and then changes nothing; otherwise it registers one
  -- empty queue under an id that was never given out. A cap that holds before it holds after it.
  pub try_subscribe-cap :
      (b : Bus E)
      → ((0 < b.max_subscribers)
          × (b.max_subscribers ≤ subscriber_count b)
          × (try_subscribe b ≡ (none, b)))
        ⊎ (((b.max_subscribers ≡ 0) ⊎ (subscriber_count b < b.max_subscribers))
            × ((try_subscribe b).0 ≡ some (b.next_id + 1))
            × (subscriber_count (try_subscribe b).1 ≡ subscriber_count b + 1)
            × (queue_of (b.next_id + 1) (try_subscribe b).1.subs ≡ some []))
  unfolding try_subscribe subscribe subscriber_count
  try_subscribe-cap b = ground arith
