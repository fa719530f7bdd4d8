-- ===== src/Qrx007/Limits.antt =====
-- agent/adapters/qrx007/qrx007.go: how much the adapter asks qrx-cli for.
use qrx_node_suite.Prelude.{
  ℕ, ◌≤◌, ◌<◌, ◌≡◌, refl, ◌∙◌, String, Option, none, some, List, [], ◌∷◌, ◌++◌, inl, inr, ◌⊎◌,
  arith,
}
use qrx_node_suite.Errors.{Result, ok, err, bad_json}
use qrx_node_suite.Exec.{Exec, carry_on, ◌>>=◌, done, fail}
use qrx_node_suite.QrxCli.{itoa, lookup, result}
use qrx_node_suite.QrxCli.Itoa.{IsNumeral, itoa-value}
use qrx_node_suite.QrxCli.Runner.{Config, base_args, call}
use qrx_node_suite.Qrx007.Reports.{get_recent_blocks, get_recent_transactions}
use qrx_node_suite.Qrx007.{
  Library, Session, Raw, cli, decode, result_object, limited, limit_text, entries,
}

limited_bounds : (n : ℕ) → (1 ≤ limited n) × (limited n ≤ 100)
unfolding limited
limited_bounds n = ground arith

limited_given : (n : ℕ) → (limited n ≡ n) ⊎ (n < 1) ⊎ (100 < n)
unfolding limited
limited_given n = ground arith

-- What is passed is the decimal numeral of the clamped limit.
limited-IsNumeral : (n : ℕ) → IsNumeral (limited n) (itoa (limited n))
limited-IsNumeral n = elim (itoa-value (limited n) (omega (arith, limited_bounds n))) [
  | inl h ↦ h.1
  | inr (inl (s, h, q, r)) ↦ absurd (omega (arith, h, limited_bounds n))
  | inr (inr (h, r)) ↦ absurd (omega (arith, h, limited_bounds n))
]

module _ (l : Library) (cfg : Config) where
  -- Without a run of qrx-cli, whatever it comes to.
  record Idle {A : Type 0} (x : Exec Session A) : Type 0 where
    at : (s : Session) → (x s).1.runs ≡ s.runs

  settle-Idle :
      {A : Type 0} (o : Option A)
      → Idle (elim o as (λ k. Exec Session A) [ none ↦ fail bad_json | some a ↦ done a ])
  settle-Idle none = record { at = λ s. refl }
  settle-Idle (some a) = record { at = λ s. refl }

  decode-Idle :
      {A : Type 0} (f : Raw l cfg → Option A) (o : Option (Raw l cfg)) → Idle (decode l cfg f o)
  decode-Idle f none = record { at = λ s. refl }
  decode-Idle f (some raw) = settle-Idle (f raw)

  carry-runs :
      {A B : Type 0} (f : A → Exec Session B) (o : Result A × Session)
      → ((a : A) → Idle (f a))
      → (carry_on f o).1.runs ≡ o.1.runs
  carry-runs f (ok a, s) h = (h a).at s
  carry-runs f (err e, s) h = refl

  bind-Idle :
      {A B : Type 0} (x : Exec Session A) (f : A → Exec Session B)
      → Idle x
      → ((a : A) → Idle (f a))
      → Idle (x >>= f)
  unfolding ◌>>=◌
  bind-Idle x f h k = record { at = λ s. carry-runs f (x s) k ∙ h.at s }

  result_object-Idle : (raw : Raw l cfg) → Idle (result_object l cfg raw)
  unfolding result_object
  result_object-Idle raw =
      bind-Idle _ _ (decode-Idle (result l.json) (some raw))
        λ r. bind-Idle _ _ (decode-Idle l.json.object (some r)) λ o. record { at = λ s. refl }

  cli-runs :
      (command : String) (args : List String) (s : Session)
      → (cli l cfg command args s).1.runs ≡ (base_args cfg ++ (command ∷ args)) ∷ s.runs
  unfolding cli call
  cli-runs command args s = refl

  entries-runs :
      (command key : String) (limit : ℕ) (s : Session)
      → (entries l cfg command key limit s).1.runs
        ≡ (base_args cfg ++ (command ∷ limit_text l cfg limit ∷ [])) ∷ s.runs
  unfolding entries ◌>>=◌
  entries-runs command key limit s =
      carry-runs _ (cli l cfg command (limit_text l cfg limit ∷ []) s)
        (λ raw. bind-Idle _ _ (result_object-Idle raw) (λ o. decode-Idle l.objects (lookup key o)))
      ∙ cli-runs command _ s

  -- The one run that an answer of a limited list takes, whatever it comes to: its last argument is the
  -- decimal numeral of a number from 1 to 100, the limit itself where it is in that range.
  pub record Asked (command : String) (limit : ℕ) (before after : List (List String)) : Type 0 where
    pub count : ℕ
    pub digits : List ℕ
    pub at_least : 1 ≤ count
    pub at_most : count ≤ 100
    pub as_given : (count ≡ limit) ⊎ (limit < 1) ⊎ (100 < limit)
    pub is_numeral : IsNumeral count digits
    pub runs : after ≡ (base_args cfg ++ (command ∷ l.of_codes digits ∷ [])) ∷ before

  asked :
      (command : String) (limit : ℕ) {before after : List (List String)}
      → after ≡ (base_args cfg ++ (command ∷ limit_text l cfg limit ∷ [])) ∷ before
      → Asked command limit before after
  asked command limit p = record {
    count = limited limit;
    digits = itoa (limited limit);
    at_least = (limited_bounds limit).0;
    at_most = (limited_bounds limit).1;
    as_given = limited_given limit;
    is_numeral = limited-IsNumeral limit;
    runs = p;
  }

  -- GetRecentBlocks, whatever comes of it, runs qrx-cli once, and the last argument of the run is the
  -- decimal numeral of a number from 1 to 100, the limit where it lies there.
  pub get_recent_blocks-Asked :
      (limit : ℕ) (s : Session)
      → Asked "getrecentblocks" limit s.runs (get_recent_blocks l cfg limit s).1.runs
  unfolding get_recent_blocks ◌>>=◌
  get_recent_blocks-Asked limit s = asked "getrecentblocks" limit (
      carry-runs _ (entries l cfg "getrecentblocks" "blocks" limit s)
        (λ es. record { at = λ t. refl })
      ∙ entries-runs "getrecentblocks" "blocks" limit s)

  pub get_recent_transactions-Asked :
      (limit : ℕ) (s : Session)
      → Asked "getrecenttransactions" limit s.runs (get_recent_transactions l cfg limit s).1.runs
  unfolding get_recent_transactions ◌>>=◌
  get_recent_transactions-Asked limit s = asked "getrecenttransactions" limit (
      carry-runs _ (entries l cfg "getrecenttransactions" "transactions" limit s)
        (λ es. record { at = λ t. refl })
      ∙ entries-runs "getrecenttransactions" "transactions" limit s)
