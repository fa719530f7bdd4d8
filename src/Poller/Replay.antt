-- ===== src/Poller/Replay.antt =====
-- agent/cmd/agentd/poller.go: what the events of a run of ticks say about the node.
use qrx_node_suite.Prelude.{
  ℕ, suc, ◌+◌, ◌≤◌, ◌<◌, ◌≡◌, refl, ap, sym, ◌∙◌, Bool, true, false, Option, none, some, List, [],
  ◌∷◌, ◌++◌, eqb, length, length-append, if◌then◌else◌, arith,
}
use qrx_node_suite.Events.{Bus, Subscriber, offer, publish}
use qrx_node_suite.Events.Bounds.{queue_of, over, queue_of-publish}
use mathlib.Core.Path.{subst}
use qrx_node_suite.Node.{Models, Snapshot, PeerSummary}
use qrx_node_suite.Poller.{
  Settings, Tick, Poller, Event, node_online, node_offline, height_changed, mempool_changed,
  peer_count_changed, online_diff, event_if, diffs, tick, changed, peers_changed, publish_all,
  publish_diffs,
}

-- What a client knows of the node that has seen the events, from what it knew before.
pub replay : List Event → Bool → Bool
replay [] b = b
replay (node_online now ∷ es) b = replay es true
replay (node_offline now ∷ es) b = replay es false
replay (height_changed now h ∷ es) b = replay es b
replay (mempool_changed now n ∷ es) b = replay es b
replay (peer_count_changed now s ∷ es) b = replay es b

abbrev pub held : Option (List Event) → List Event
held none = []
held (some q) = q

-- A subscriber receives all that its channel holds.
unfoldable pub emptied : ℕ → List (Subscriber Event) → List (Subscriber Event)
emptied i [] = []
emptied i (s ∷ ss) =
    let rest = emptied i ss in if eqb s.id i then record s { queue = [] } ∷ rest else s ∷ rest

module _ {m : Models} where
  unfoldable pub receive : ℕ → Poller m → List Event × Poller m
  unfolding emptied
  receive i p = (
    held (queue_of i p.bus.subs),
    record p { bus = record (p.bus) { subs = emptied i p.bus.subs } },
  )

  -- A run of ticks, after each of which the subscriber `i` receives what its channel holds.
  unfoldable pub run : Settings m → ℕ → List (Tick m) → Poller m → Poller m
  unfolding receive
  run c i [] p = p
  run c i (t ∷ ts) p = run c i ts (receive i (tick c t p).1).1

  -- The events that the subscriber receives during the run, in order.
  unfoldable pub run_events : Settings m → ℕ → List (Tick m) → Poller m → List Event
  unfolding receive
  run_events c i [] p = []
  run_events c i (t ∷ ts) p =
      let (es, next) = receive i (tick c t p).1 in es ++ run_events c i ts next

replay_empty : (b : Bool) → replay [] b ≡ b
unfolding replay
replay_empty b = refl

replay-append : (xs ys : List Event) (b : Bool) → replay (xs ++ ys) b ≡ replay ys (replay xs b)
unfolding replay
replay-append [] ys b = refl
replay-append (node_online now ∷ xs) ys b = replay-append xs ys true
replay-append (node_offline now ∷ xs) ys b = replay-append xs ys false
replay-append (height_changed now h ∷ xs) ys b = replay-append xs ys b
replay-append (mempool_changed now n ∷ xs) ys b = replay-append xs ys b
replay-append (peer_count_changed now s ∷ xs) ys b = replay-append xs ys b

-- The events of a tick after the first one leave the knowledge as it is.
height_event :
    (d : Bool) (now h : ℕ) (es : List Event) (b : Bool)
    → replay (event_if d (height_changed now h) es) b ≡ replay es b
unfolding replay
height_event true now h es b = refl
height_event false now h es b = refl

mempool_event :
    (d : Bool) (now h : ℕ) (b : Bool) → replay (event_if d (mempool_changed now h) []) b ≡ b
unfolding replay
mempool_event true now h b = refl
mempool_event false now h b = refl

peer_event :
    (d : Bool) (now : ℕ) (s : PeerSummary) (es : List Event) (b : Bool)
    → replay (event_if d (peer_count_changed now s) es) b ≡ replay es b
unfolding replay
peer_event true now s es b = refl
peer_event false now s es b = refl

online_event :
    (now : ℕ) (a b : Bool) (es : List Event) → replay (online_diff now a b es) a ≡ replay es b
unfolding replay
online_event now true true es = refl
online_event now true false es = refl
online_event now false true es = refl
online_event now false false es = refl

-- The events between two snapshots lead from what the first says of the node to what the second says.
replay-diffs :
    {m : Models} (now : ℕ) (s u : Snapshot m) → replay (diffs now s u) s.node.online ≡ u.node.online
unfolding diffs
replay-diffs now s u =
    online_event now s.node.online u.node.online _
    ∙ height_event _ now _ _ u.node.online
    ∙ peer_event _ now _ _ u.node.online
    ∙ mempool_event _ now _ u.node.online

-- Where the channel has room, a subscriber gets every event that is published.
offer-room :
    (size : ℕ) (e : Event) (q : List Event) → length q < size → offer size e q ≡ q ++ (e ∷ [])
unfolding offer
offer-room size e q h = ground arith

append_one : (q es : List Event) (e : Event) → (q ++ (e ∷ [])) ++ es ≡ q ++ (e ∷ es)
append_one [] es e = refl
append_one (x ∷ q) es e = ap (λ (r : List Event). x ∷ r) (append_one q es e)

publish_all-queue_of :
    (i : ℕ) (es q : List Event) (b : Bus Event)
    → queue_of i b.subs ≡ some q
    → length q + length es ≤ b.buf_size
    → queue_of i (publish_all es b).subs ≡ some (q ++ es)
unfolding publish_all publish
publish_all-queue_of i [] q b h k = h ∙ ap some (sym (append_nil q))
  where
    append_nil : (x : List Event) → x ++ [] ≡ x
    append_nil [] = refl
    append_nil (y ∷ x) = ap (λ (r : List Event). y ∷ r) (append_nil x)
publish_all-queue_of i (e ∷ es) q b h k =
    publish_all-queue_of i es (q ++ (e ∷ [])) (publish e b) delivered
      (omega (arith, k, length-append q (e ∷ [])))
    ∙ ap some (append_one q es e)
  where
    delivered : queue_of i (publish e b).subs ≡ some (q ++ (e ∷ []))
    delivered =
        queue_of-publish e i b
        ∙ ap (over (offer b.buf_size e)) h
        ∙ ap some (offer-room b.buf_size e q (omega (arith, k)))

publish_all-buf_size : (es : List Event) (b : Bus Event) → (publish_all es b).buf_size ≡ b.buf_size
unfolding publish_all publish
publish_all-buf_size [] b = refl
publish_all-buf_size (e ∷ es) b = publish_all-buf_size es (publish e b)

emptied-queue_of :
    (i : ℕ) (ss : List (Subscriber Event)) {q : List Event}
    → queue_of i ss ≡ some q
    → queue_of i (emptied i ss) ≡ some []
unfolding emptied
emptied-queue_of i [] h = cc
emptied-queue_of i (s ∷ ss) {q} h = which (eqb s.id i) refl h (λ k. emptied-queue_of i ss k)
  where
    which :
        (b : Bool)
        → eqb s.id i ≡ b
        → (if b then some s.queue else queue_of i ss) ≡ some q
        → (queue_of i ss ≡ some q → queue_of i (emptied i ss) ≡ some [])
        → queue_of i (if b then record s { queue = [] } ∷ emptied i ss else s ∷ emptied i ss)
          ≡ some []
    which true e p k = rw e refl
    which false e p k = rw e (k p)

event_if-length :
    (b : Bool) (e : Event) (es : List Event) → length (event_if b e es) ≤ suc (length es)
event_if-length true e es = omega arith
event_if-length false e es = omega arith

online_diff-length :
    (now : ℕ) (a b : Bool) (es : List Event) → length (online_diff now a b es) ≤ suc (length es)
online_diff-length now true true es = omega arith
online_diff-length now true false es = omega arith
online_diff-length now false true es = omega arith
online_diff-length now false false es = omega arith

-- At most four events a tick.
diffs-length : {m : Models} (now : ℕ) (s u : Snapshot m) → length (diffs now s u) ≤ 4
unfolding diffs
diffs-length now s u =
    let n = s.node in
    let k = u.node in
    let pool =
      event_if (changed n.mempool_tx_count k.mempool_tx_count)
        (mempool_changed now k.mempool_tx_count.value) [] in
    let peers =
      event_if (peers_changed n.peers k.peers) (peer_count_changed now k.peers.value) pool in
    let height = event_if (changed n.height k.height) (height_changed now k.height.value) peers in
    omega (
      arith,
      event_if-length (changed n.mempool_tx_count k.mempool_tx_count)
          (mempool_changed now k.mempool_tx_count.value) [],
      event_if-length (peers_changed n.peers k.peers) (peer_count_changed now k.peers.value) pool,
      event_if-length (changed n.height k.height) (height_changed now k.height.value) peers,
      online_diff-length now n.online k.online height,
    )

-- The subscriber is there, has received everything, and its channel has room for what one tick publishes.
pub record Listens {m : Models} (i : ℕ) (p : Poller m) : Type 0 where
  pub is_empty : queue_of i p.bus.subs ≡ some []
  pub has_room : 4 ≤ p.bus.buf_size

module _ {m : Models} (c : Settings m) (on : c.has_bus ≡ true) (i : ℕ) (t : Tick m) (p : Poller m)
    (l : Listens i p) where
  published : List Event
  published = diffs t.published p.cache (tick c t p).1.cache

  ticked : (tick c t p).1.bus ≡ publish_all published p.bus
  unfolding tick publish_diffs published
  ticked = rw on refl

  delivered : queue_of i (tick c t p).1.bus.subs ≡ some published
  unfolding published
  delivered =
      ap (λ (b : Bus Event). queue_of i b.subs) ticked
      ∙ publish_all-queue_of i published [] p.bus l.is_empty (fits l.has_room)
    where
      fits : 4 ≤ p.bus.buf_size → 0 + length published ≤ p.bus.buf_size
      fits h = omega (arith, h, diffs-length t.published p.cache (tick c t p).1.cache)

  still-Listens : Listens i (receive i (tick c t p).1).1
  unfolding receive
  still-Listens = record {
    is_empty = emptied-queue_of i (tick c t p).1.bus.subs delivered;
    has_room = subst (λ n. 4 ≤ n) (sym kept) l.has_room;
  }
    where
      kept : (tick c t p).1.bus.buf_size ≡ p.bus.buf_size
      kept = ap (λ (b : Bus Event). b.buf_size) ticked ∙ publish_all-buf_size published p.bus

  received :
      replay (receive i (tick c t p).1).0 p.cache.node.online ≡ (tick c t p).1.cache.node.online
  unfolding receive published
  received =
      ap (λ es. replay es p.cache.node.online) (ap held delivered)
      ∙ replay-diffs t.published p.cache (tick c t p).1.cache

-- Where the poller has a bus, a subscriber whose channel is empty and has room for four events, and who
-- receives what the channel holds after each tick of a run, knows after the run whether the node is
-- online, if it knew before: what it replays agrees with the cache.
pub replay-run_events :
    {m : Models} (c : Settings m) (i : ℕ) (ts : List (Tick m)) (p : Poller m)
    → c.has_bus ≡ true
    → Listens i p
    → replay (run_events c i ts p) p.cache.node.online ≡ (run c i ts p).cache.node.online
unfolding run run_events
replay-run_events c i [] p on l = replay_empty p.cache.node.online
replay-run_events c i (t ∷ ts) p on l =
    let next = (receive i (tick c t p).1).1 in
    replay-append (receive i (tick c t p).1).0 (run_events c i ts next) p.cache.node.online
    ∙ ap (replay (run_events c i ts next)) (received c on i t p l)
    ∙ replay-run_events c i ts next on (still-Listens c on i t p l)
