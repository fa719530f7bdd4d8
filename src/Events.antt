-- ===== src/Events.antt =====
-- agent/events/bus.go: the event bus.
--
-- A subscriber's channel is the queue of the events it has not received yet. Each method holds the
-- bus's mutex, so a concurrent run is a sequence of these operations. A MaxSubscribers of zero or
-- less is 0.
pub mod Bounds
mod Tests
use qrx_node_suite.Prelude.{
  ℕ, ◌+◌, Bool, true, false, ◌&&◌, Option, none, some, List, [], ◌∷◌, ◌++◌, ltb, leb, eqb,
  if◌then◌else◌, length,
}

pub record Subscriber (E : Type 0) : Type 0 where
  pub id : ℕ
  pub queue : List E

pub record Bus (E : Type 0) : Type 0 where
  pub subs : List (Subscriber E)
  pub next_id : ℕ
  pub buf_size : ℕ
  pub max_subscribers : ℕ

module _ {E : Type 0} where
  -- NewBus.
  pub new_bus : ℕ → Bus E
  new_bus n = record {
    subs = [];
    next_id = 0;
    buf_size = if eqb n 0 then 32 else n;
    max_subscribers = 0;
  }

  -- One `select` with a default.
  unfoldable pub offer : ℕ → E → List E → List E
  offer size e q = if ltb (length q) size then q ++ (e ∷ []) else q

  unfoldable pub deliver : ℕ → E → List (Subscriber E) → List (Subscriber E)
  unfolding offer
  deliver size e [] = []
  deliver size e (s ∷ ss) = record s { queue = offer size e s.queue } ∷ deliver size e ss

  unfoldable pub publish : E → Bus E → Bus E
  unfolding deliver
  publish e b = record b { subs = deliver b.buf_size e b.subs }

  -- Subscribe and subscribeLocked.
  pub subscribe : Bus E → ℕ × Bus E
  subscribe b =
      let i = b.next_id + 1 in
      (i, record b { next_id = i; subs = record { id = i; queue = [] } ∷ b.subs })

  pub try_subscribe : Bus E → Option ℕ × Bus E
  unfolding subscribe
  try_subscribe b =
      let (i, c) = subscribe b in
      if ltb 0 b.max_subscribers && leb b.max_subscribers (length b.subs)
      then (none, b)
      else (some i, c)

  pub remove : ℕ → List (Subscriber E) → List (Subscriber E)
  remove i [] = []
  remove i (s ∷ ss) = let rest = remove i ss in if eqb s.id i then rest else s ∷ rest

  pub unsubscribe : ℕ → Bus E → Bus E
  unfolding remove
  unsubscribe i b = record b { subs = remove i b.subs }

  pub subscriber_count : Bus E → ℕ
  subscriber_count b = length b.subs
