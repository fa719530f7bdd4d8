-- ===== src/Guardian/Budget.antt =====
-- agent/guardian/guardian.go: the restarts that a run of Guardian requests, against its budget.
use qrx_node_suite.Prelude.{
  ℕ, ◌≤◌, ◌<◌, ◌≡◌, refl, ap, sym, ◌∙◌, Bool, true, false, Option, none, some, List, [], ◌∷◌, ◌++◌,
  length, length-append, arith, Bool-cases, inl, inr, leb, not, ◌&&◌,
}
use qrx_node_suite.Guardian.{
  Guardian, Config, Signals, new, evaluate, attempt_restart, keep, cooling_down, classify,
  wants_restart, same_health,
}

-- The log of a run, newest first, after one more tick.
abbrev pub logged : Bool → ℕ → List ℕ → List ℕ
logged true now l = now ∷ l
logged false now l = l

-- Ticks of Guardian at times that never go back, with the times of the restarts requested so far.
pub data Run (c : Config) : ℕ → List ℕ → Guardian → Type 0 where
  start : (t : ℕ) → Run c t [] new
  tick :
      {t : ℕ} {l : List ℕ} {g : Guardian} (s : Signals) (now later : ℕ)
      → Run c t l g
      → t ≤ now
      → now ≤ later
      → Run c later (logged (evaluate c s now later g).0 later l) (evaluate c s now later g).1

-- How many of the times lie in the window that ends now.
abbrev pub count : ℕ → ℕ → List ℕ → ℕ
count w now l = length (keep w now l)

abbrev pub newest : List ℕ → Option ℕ
newest [] = none
newest (t ∷ l) = some t

-- At each restart, fewer than MaxAutoRestarts lay in the window before it, and the one before it
-- was MinRestartInterval ago.
pub IsBudgeted : Config → List ℕ → Type 0
IsBudgeted c [] = Unit
IsBudgeted c (t ∷ l) =
    (count c.restart_window t l < c.max_auto_restarts)
    × (cooling_down c t (newest l) ≡ false)
    × IsBudgeted c l

keep-append : (w now : ℕ) (xs ys : List ℕ) → keep w now (xs ++ ys) ≡ keep w now xs ++ keep w now ys
unfolding keep
keep-append w now [] ys = refl
keep-append w now (x ∷ xs) ys = let r = keep-append w now xs ys in ground arith

-- What an earlier cutoff dropped, a later one drops as well.
count-keep : (w a b : ℕ) (xs : List ℕ) → a ≤ b → count w b (keep w a xs) ≡ count w b xs
unfolding keep
count-keep w a b [] h = refl
count-keep w a b (x ∷ xs) h = let r = count-keep w a b xs h in ground arith

-- What the state knows of the log at time t.
pub record Keeps (c : Config) (t : ℕ) (l : List ℕ) (g : Guardian) : Type 0 where
  pub budgeted : IsBudgeted c l
  pub last : g.last_restart ≡ newest l
  pub counted :
      (b : ℕ) → t ≤ b → count c.restart_window b g.restart_times ≡ count c.restart_window b l

Keeps-later :
    (c : Config) (t later : ℕ) (l : List ℕ) (g : Guardian)
    → t ≤ later
    → Keeps c t l g
    → Keeps c later l g
Keeps-later c t later l g h k = record {
  budgeted = k.budgeted;
  last = k.last;
  counted = λ b p. k.counted b (omega (arith, h, p));
}

leb-false : (a b : ℕ) → leb a b ≡ false → b < a
leb-false a b h = ground arith

count-add :
    (c : Config) (later b : ℕ) (l ts : List ℕ)
    → later ≤ b
    → count c.restart_window b ts ≡ count c.restart_window b l
    → count c.restart_window b (keep c.restart_window later ts ++ (later ∷ []))
      ≡ count c.restart_window b (later ∷ l)
unfolding keep
count-add c later b l ts p e =
    let w = c.restart_window in
    rw
      (
        keep-append w b (keep w later ts) (later ∷ []),
        length-append (keep w b (keep w later ts)) (keep w b (later ∷ [])),
        count-keep w later b ts p,
        e,
      )
      (ground arith)

Keeps-quiet :
    (c : Config) (t later : ℕ) (l : List ℕ) (g : Guardian)
    → t ≤ later
    → Keeps c t l g
    → Keeps c later l (record g { restart_times = keep c.restart_window later g.restart_times })
Keeps-quiet c t later l g h k = record {
  budgeted = k.budgeted;
  last = k.last;
  counted = λ b p.
      count-keep c.restart_window later b g.restart_times p ∙ k.counted b (omega (arith, h, p));
}

Keeps-restart :
    (c : Config) (t later : ℕ) (l : List ℕ) (g : Guardian)
    → t ≤ later
    → Keeps c t l g
    → cooling_down c later g.last_restart ≡ false
    → leb c.max_auto_restarts (count c.restart_window later g.restart_times) ≡ false
    → Keeps c later (later ∷ l) (record g {
      restart_times = keep c.restart_window later g.restart_times ++ (later ∷ []);
      last_restart = some later;
    })
unfolding IsBudgeted
Keeps-restart c t later l g h k e f = record {
  budgeted = (
    leb-false _ _ (ap (leb c.max_auto_restarts) (sym (k.counted later h)) ∙ f),
    ap (cooling_down c later) (sym k.last) ∙ e,
    k.budgeted,
  );
  last = refl;
  counted = λ b p. count-add c later b l g.restart_times p (k.counted b (omega (arith, h, p)));
}

attempt-Keeps :
    (c : Config) (t later : ℕ) (l : List ℕ) (g : Guardian)
    → t ≤ later
    → Keeps c t l g
    → Keeps c later (logged (attempt_restart c later g).0 later l) (attempt_restart c later g).1
unfolding attempt_restart
attempt-Keeps c t later l g h k = elim (Bool-cases (cooling_down c later g.last_restart)) [
  | inl e ↦ rw e (Keeps-later c t later l g h k)
  | inr e ↦
      elim (Bool-cases (leb c.max_auto_restarts (count c.restart_window later g.restart_times))) [
        | inl f ↦ rw (e, f) (Keeps-quiet c t later l g h k)
        | inr f ↦ rw (e, f) (Keeps-restart c t later l g h k e f)
      ]
]

evaluate-Keeps :
    (c : Config) (s : Signals) (t now later : ℕ) (l : List ℕ) (g : Guardian)
    → t ≤ later
    → Keeps c t l g
    → Keeps c later (logged (evaluate c s now later g).0 later l) (evaluate c s now later g).1
unfolding evaluate
evaluate-Keeps c s t now later l g h k =
    let st = classify s c now in
    let g2 : Guardian = record g { state = st } in
    let k2 : Keeps c t l g2 = record {
      budgeted = k.budgeted;
      last = k.last;
      counted = k.counted;
    } in
    elim (Bool-cases (not (same_health g.state st) && wants_restart st)) [
      | inl e ↦ rw e (attempt-Keeps c t later l g2 h k2)
      | inr e ↦ rw e (Keeps-later c t later l g2 h k2)
    ]

Run-Keeps : (c : Config) {t : ℕ} {l : List ℕ} {g : Guardian} → Run c t l g → Keeps c t l g
unfolding IsBudgeted
Run-Keeps c (start t) = record { budgeted = tt; last = refl; counted = λ b p. refl }
Run-Keeps c (tick {t} {l} {g} s now later r p q) =
    evaluate-Keeps c s t now later l g (omega (arith, p, q)) (Run-Keeps c r)

-- In every run of Guardian, each restart that it requests comes when fewer than MaxAutoRestarts
-- restarts lie in the window before it, and MinRestartInterval or more after the one before it.
pub Run-IsBudgeted : (c : Config) {t : ℕ} {l : List ℕ} {g : Guardian} → Run c t l g → IsBudgeted c l
Run-IsBudgeted c r = (Run-Keeps c r).budgeted
