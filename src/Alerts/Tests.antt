-- ===== src/Alerts/Tests.antt =====
-- Two concrete rules, and the theorems on a round of the engine applied to them.
use qrx_node_suite.Prelude.{
  ℕ, ◌≡◌, ◌≢◌, refl, eq_iff, String, true, false, List, [], ◌∷◌, ltb, arith, All,
}
use qrx_node_suite.Alerts.{Rule, World, evaluate, severity_critical, severity_warning}
use qrx_node_suite.Alerts.Open.{
  open_count, AtMostOne, AreDistinct, flag, evaluate-AtMostOne, evaluate-open_count,
}

-- A snapshot is a count of minutes without an answer.
abbrev offline : Rule ℕ
offline = record {
  id = "offline";
  severity = severity_critical;
  title = "QRX node offline";
  evaluate = λ n. (ltb 5 n, "no answer");
}

abbrev slow : Rule ℕ
slow = record {
  id = "slow";
  severity = severity_warning;
  title = "QRX node slow";
  evaluate = λ n. (ltb 9 n, "slow answer");
}

abbrev rules : List (Rule ℕ)
rules = offline ∷ slow ∷ []

abbrev quiet : World
quiet = record { rows = []; last_id = 0; published = []; ticks = 0; fails = λ n. false }

quiet-AtMostOne : AtMostOne (quiet.rows)
unfolding open_count
quiet-AtMostOne j = omega arith

rules-AreDistinct : AreDistinct {S = ℕ} 7 100 rules
rules-AreDistinct = ((apart, tt), (tt, tt))
  where
    different : false ≢ true
    different e = cc

    apart : ◌≢◌ {A = String} "slow" "offline"
    apart h = different ((eq_iff "slow" "offline").1 h)

evaluate-AtMostOne_example : AtMostOne (evaluate rules 7 100 quiet).1.rows
evaluate-AtMostOne_example = evaluate-AtMostOne 7 100 rules quiet quiet-AtMostOne

evaluate-open_count_example :
    All
      (λ (r : Rule ℕ). open_count r.id (evaluate rules 7 100 quiet).1.rows ≡ flag (r.evaluate 7).0)
      rules
unfolding evaluate
evaluate-open_count_example =
    evaluate-open_count 7 100 rules quiet rules-AreDistinct quiet-AtMostOne refl
