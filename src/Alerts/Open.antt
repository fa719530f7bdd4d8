-- ===== src/Alerts/Open.antt =====
-- agent/alerts/alerts.go: which alerts are open after a round of the engine.
use qrx_node_suite.Prelude.{
  All, ℕ, ◌+◌, ◌≤◌, ◌≡◌, ◌≢◌, refl, ◌∙◌, String, Bool, true, false, Option, none, some, List, [],
  ◌∷◌, if◌then◌else◌, ◌==◌, eq_iff, eq_refl, arith, Bool-cases, inl, inr,
}
use mathlib.Core.Path.{subst}
use qrx_node_suite.Errors.{Result, ok, err}
use qrx_node_suite.Exec.{carry_on}
use qrx_node_suite.Alerts.{
  Alert, Rule, World, is_open, find_open, resolve_rows, transition, evaluate, evaluate_rule, opened,
}

differs : (a b : String) → (a == b) ≡ false → a ≢ b
differs a b n e = let y = (eq_iff a b).1 e in cc

-- How many alerts of a rule are open.
unfoldable pub open_count : String → List Alert → ℕ
open_count rule [] = 0
open_count rule (a ∷ rows) =
    let rest = open_count rule rows in if is_open rule a then rest + 1 else rest

find-none :
    (rule : String) (rows : List Alert) → find_open rule rows ≡ none → open_count rule rows ≡ 0
unfolding find_open open_count
find-none rule [] h = refl
find-none rule (a ∷ rows) h = let r = find-none rule rows in ground arith

find-some :
    (rule : String) (rows : List Alert) (a : Alert)
    → find_open rule rows ≡ some a
    → 1 ≤ open_count rule rows
unfolding find_open open_count
find-some rule [] b h = cc
find-some rule (a ∷ rows) b h = let r = find-some rule rows b in ground arith

count-resolve :
    (rule : String) (now : ℕ) (rows : List Alert) → open_count rule (resolve_rows rule now rows) ≡ 0
unfolding resolve_rows open_count
count-resolve rule now [] = refl
count-resolve rule now (a ∷ rows) = let r = count-resolve rule now rows in ground arith

count-resolve_ne :
    (rule other : String) (now : ℕ) (rows : List Alert)
    → rule ≢ other
    → open_count other (resolve_rows rule now rows) ≡ open_count other rows
unfolding resolve_rows open_count
count-resolve_ne rule other now [] n = refl
count-resolve_ne rule other now (a ∷ rows) n =
    let r = count-resolve_ne rule other now rows n in
    ground (arith, eq_iff (a.rule_id) rule, eq_iff (a.rule_id) other)

abbrev pub flag : Bool → ℕ
flag b = if b then 1 else 0

-- One rule's turn leaves it at most one open alert, exactly one or none by its test if no error
-- came up, and changes no other rule's alerts.
abbrev pub Turn : String → Bool → List Alert → Result (Unit {0}) × World → Type 0
Turn rule firing rows o =
    (open_count rule o.1.rows ≤ 1)
    × (o.0 ≡ ok tt → open_count rule o.1.rows ≡ flag firing)
    × ((j : String) → rule ≢ j → open_count j o.1.rows ≡ open_count j rows)

count-opened :
    {S : Type 0} (r : Rule S) (message : String) (now n j : ℕ) (rows : List Alert)
    → open_count r.id rows ≡ 0
    → open_count r.id (record (opened r message now) { id = n } ∷ rows) ≡ 1
unfolding open_count
count-opened r message now n j rows h = rw (eq_refl r.id, h)

count-opened_ne :
    {S : Type 0} (r : Rule S) (message other : String) (now n : ℕ) (rows : List Alert)
    → r.id ≢ other
    → open_count other (record (opened r message now) { id = n } ∷ rows) ≡ open_count other rows
unfolding open_count
count-opened_ne r message other now n rows h = ground (arith, eq_iff r.id other)

transition-created :
    {S : Type 0} (r : Rule S) (now : ℕ) (message : String) (w : World)
    → open_count r.id w.rows ≡ 0
    → Turn r.id true w.rows (transition r now (true, message) none w)
unfolding transition
transition-created r now message w h =
    let one = count-opened r message now (w.last_id + 1) 0 w.rows h in
    let others =
      λ (j : String) (n : r.id ≢ j). count-opened_ne r message j now (w.last_id + 1) w.rows n in
    elim (Bool-cases (w.fails w.ticks)) [
      | inl e ↦ rw e ((omega (arith, h), λ x. cc, λ j n. refl))
      | inr e ↦ elim (Bool-cases (w.fails (w.ticks + 1))) [
        | inl f ↦ rw (e, f) (omega (arith, one), λ x. cc, others)
        | inr f ↦ rw (e, f) (omega (arith, one), λ x. one, others)
      ]
    ]

transition-resolved :
    {S : Type 0} (r : Rule S) (now : ℕ) (message : String) (a : Alert) (w : World)
    → open_count r.id w.rows ≤ 1
    → Turn r.id false w.rows (transition r now (false, message) (some a) w)
unfolding transition
transition-resolved r now message a w h =
    let none_left = count-resolve r.id now w.rows in
    elim (Bool-cases (w.fails w.ticks)) [
      | inl e ↦ rw e (h, λ x. cc, λ j n. refl)
      | inr e ↦
          rw e
            (omega (arith, none_left), λ x. none_left, λ j n. count-resolve_ne r.id j now w.rows n)
    ]

transition-Turn :
    {S : Type 0} (r : Rule S) (now : ℕ) (p : Bool × String) (o : Option Alert) (w : World)
    → find_open r.id w.rows ≡ o
    → open_count r.id w.rows ≤ 1
    → Turn r.id p.0 w.rows (transition r now p o w)
unfolding transition
transition-Turn r now (true, message) none w e h =
    transition-created r now message w (find-none r.id w.rows e)
transition-Turn r now (false, message) (some a) w e h = transition-resolved r now message a w h
transition-Turn r now (true, message) (some a) w e h =
    let k = find-some r.id w.rows a e in (h, λ x. omega (arith, h, k), λ j n. refl)
transition-Turn r now (false, message) none w e h =
    let k = find-none r.id w.rows e in (h, λ x. k, λ j n. refl)

pub evaluate_rule-Turn :
    {S : Type 0} (r : Rule S) (s : S) (now : ℕ) (w : World)
    → open_count r.id w.rows ≤ 1
    → Turn r.id (r.evaluate s).0 w.rows (evaluate_rule r s now w)
unfolding evaluate_rule
evaluate_rule-Turn r s now w h =
    let u : World = record w { ticks = w.ticks + 1 } in
    let k = transition-Turn r now (r.evaluate s) (find_open r.id w.rows) u refl h in
    elim (Bool-cases (w.fails w.ticks)) [ inl e ↦ rw e (h, λ x. cc, λ j n. refl) | inr e ↦ rw e k ]

-- At most one open alert for each rule.
abbrev pub AtMostOne : List Alert → Type 0
AtMostOne rows = (j : String) → open_count j rows ≤ 1

Turn-AtMostOne :
    (rule : String) (b : Bool) (rows : List Alert) (o : Result (Unit {0}) × World)
    → AtMostOne rows
    → Turn rule b rows o
    → AtMostOne o.1.rows
Turn-AtMostOne rule b rows o h (l, k, f) j = elim (Bool-cases (rule == j)) [
  | inl e ↦ subst (λ (x : String). open_count x o.1.rows ≤ 1) ((eq_iff rule j).0 e) l
  | inr e ↦ omega (arith, f j (differs rule j e), h j)
]

module _ {S : Type 0} (s : S) (now : ℕ) where
  abbrev pub Fresh : String → List (Rule S) → Type 0
  Fresh j rules = All (λ (q : Rule S). q.id ≢ j) rules

  -- No two rules have the same id.
  abbrev pub AreDistinct : List (Rule S) → Type 0
  AreDistinct [] = Unit
  AreDistinct (r ∷ rules) = Fresh r.id rules × AreDistinct rules

  -- A round of the engine never opens a second alert for a rule, whatever calls of the database
  -- fail and wherever it stops.
  pub evaluate-AtMostOne :
      (rules : List (Rule S)) (w : World)
      → AtMostOne w.rows
      → AtMostOne (evaluate rules s now w).1.rows
  unfolding evaluate
  evaluate-AtMostOne [] w h = h
  evaluate-AtMostOne (r ∷ rules) w h = go (evaluate-AtMostOne rules) (evaluate_rule r s now w) (
      Turn-AtMostOne r.id (r.evaluate s).0 w.rows (evaluate_rule r s now w) h
        (evaluate_rule-Turn r s now w (h r.id)))
    where
      go :
          ((u : World) → AtMostOne u.rows → AtMostOne (evaluate rules s now u).1.rows)
          → (o : Result (Unit {0}) × World) → AtMostOne o.1.rows
          → AtMostOne (carry_on (λ a. evaluate rules s now) o).1.rows
      go next (ok a, u) k = next u k
      go next (err e, u) k = k

  -- The rules of a list leave the alerts of any other rule alone, and a round without an error
  -- leaves each of its rules as its test says.
  abbrev Round : List (Rule S) → List Alert → Result (Unit {0}) × World → Type 0
  Round rules rows o =
      ((j : String) → Fresh j rules → open_count j o.1.rows ≡ open_count j rows)
      × (o.0 ≡ ok tt → All (λ (r : Rule S). open_count r.id o.1.rows ≡ flag (r.evaluate s).0) rules)

  evaluate-Round :
      (rules : List (Rule S)) (w : World)
      → AreDistinct rules
      → AtMostOne w.rows
      → Round rules w.rows (evaluate rules s now w)
  unfolding evaluate
  evaluate-Round [] w d h = (λ j n. refl, λ x. tt)
  evaluate-Round (r ∷ rules) w (n, d) h =
      go (λ u k. evaluate-Round rules u d k) (evaluate_rule r s now w)
        (Turn-AtMostOne r.id (r.evaluate s).0 w.rows (evaluate_rule r s now w) h
          (evaluate_rule-Turn r s now w (h r.id)))
        (evaluate_rule-Turn r s now w (h r.id))
    where
      go :
          ((u : World) → AtMostOne u.rows → Round rules u.rows (evaluate rules s now u))
          → (o : Result (Unit {0}) × World) → AtMostOne o.1.rows
          → Turn r.id (r.evaluate s).0 w.rows o
          → Round (r ∷ rules) w.rows (carry_on (λ a. evaluate rules s now) o)
      go next (ok a, u) k (l, m, f) =
          let (others, each) = next u k in
          (λ j p. others j p.1 ∙ f j p.0, λ x. (others r.id n ∙ m refl, each x))
      go next (err e, u) k (l, m, f) = (λ j p. f j p.0, λ x. cc)

  -- After a round without an error, each rule has exactly one open alert if its test holds, and
  -- none if not. No two rules share an id, and no rule had two open alerts before.
  pub evaluate-open_count :
      (rules : List (Rule S)) (w : World)
      → AreDistinct rules
      → AtMostOne w.rows
      → (evaluate rules s now w).0 ≡ ok tt
      → All
          (λ (r : Rule S). open_count r.id (evaluate rules s now w).1.rows ≡ flag (r.evaluate s).0)
          rules
  evaluate-open_count rules w d h e = (evaluate-Round rules w d h).1 e
