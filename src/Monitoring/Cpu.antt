-- ===== src/Monitoring/Cpu.antt =====
-- agent/monitoring/linux.go: the share of the processor between two samples.
use qrx_node_suite.Prelude.{
  ℕ, ◌+◌, ◌-◌, ◌<◌, ◌≤◌, ◌≡◌, ◌⊎◌, inl, inr, refl, ap, ◌∙◌, String, Bool, true, false, ◌||◌, Option,
  none, some, List, [], ◌∷◌, eqb, ltb, leb, if◌then◌else◌, arith, Bool-cases,
}
use qrx_node_suite.QrxCli.{word}
use qrx_node_suite.Node.{Value, is_ok}
use qrx_node_suite.Node.Reports.{avail, unavail}
use qrx_node_suite.Monitoring.{
  Texts, LinuxCollector, plus, minus, sum, nth, share, sample, counted, cpu_nums, cpu_usage_percent,
}

-- The previous sample is of two uint64.
pub record IsSample (c : LinuxCollector) : Type 0 where
  pub total_word : c.prev_total < word
  pub idle_word : c.prev_idle < word

-- The reported value is the share `busy` of `total`, both of the time since the previous sample.
pub record Share {F : Type 0} (t : Texts F) (c after : LinuxCollector) (v : F) : Type 0 where
  pub busy : ℕ
  pub total : ℕ
  pub is_positive : 0 < total
  pub is_bounded : busy ≤ total
  pub is_elapsed : c.prev_total + total ≡ after.prev_total
  pub is_busy : (after.prev_idle < c.prev_idle) ⊎ (busy ≡ total - (after.prev_idle - c.prev_idle))
  pub is_share : v ≡ t.percent busy total

plus-word : (a b : ℕ) → plus a b < word
unfolding plus
plus-word a b = omega arith

sum-word : (s : ℕ) (ns : List ℕ) → s < word → sum s ns < word
unfolding sum
sum-word s [] h = h
sum-word s (n ∷ ns) h = sum-word (plus s n) ns (plus-word s n)

minus-exact : (a b : ℕ) → a < word → b ≤ a → minus a b ≡ a - b
unfolding minus
minus-exact a b h k = omega arith

minus-word : (a b : ℕ) → minus a b < word
unfolding minus
minus-word a b = omega arith

lt_or_le : (a b : ℕ) → (a < b) ⊎ (b ≤ a)
lt_or_le a b = elim (Bool-cases (ltb a b)) [
  | inl y ↦ inl (ground arith)
  | inr n ↦ inr (ground arith)
]

capped_le : (a b : ℕ) → (if ltb a b then a else b) ≤ a
capped_le a b = ground arith

capped_eq : (a b : ℕ) → a - (if ltb a b then a else b) ≡ a - b
capped_eq a b = ground arith

module _ {F : Type 0} (t : Texts F) where
  sample-Share :
      (c : LinuxCollector) (total idle : ℕ)
      → IsSample c
      → total < word
      → idle < word
      → c.prev_total < total
      → Share t c
          (record { prev_total = total; prev_idle = idle })
          (share t (minus total c.prev_total) (minus idle c.prev_idle))
  unfolding share
  sample-Share c total idle h tw iw later =
      let dt = minus total c.prev_total in
      let di = minus idle c.prev_idle in
      let cap = if ltb dt di then dt else di in
      let elapsed = minus-exact total c.prev_total tw (omega arith) in
      let rest = minus-exact dt cap (minus-word total c.prev_total) (capped_le dt di) in
      let capped = capped_eq dt di in
      record {
        busy = minus dt cap;
        total = dt;
        is_positive = omega arith;
        is_bounded = omega arith;
        is_elapsed = omega arith;
        is_busy = elim (lt_or_le idle c.prev_idle) [
          | inl back ↦ inl back
          | inr forward ↦
              inr (rest ∙ capped ∙ ap (λ x. dt - x) (minus-exact idle c.prev_idle iw forward))
        ];
        is_share = refl;
      }

  -- A read of the counters, whatever the file holds: the new state is again of two uint64, and a share that
  -- is called available is that of the time since the sample before.
  abbrev pub Reads : LinuxCollector → Value F × LinuxCollector → Type 0
  Reads c (v, after) = IsSample after × ((is_ok v ≡ false) ⊎ Share t c after v.value)

  sample-Reads :
      (c : LinuxCollector) (total idle : ℕ)
      → IsSample c
      → total < word
      → idle < word
      → Reads c (sample t c total idle)
  unfolding sample avail unavail
  sample-Reads c total idle h tw iw = (
    record { total_word = tw; idle_word = iw },
    which (eqb c.prev_total 0 || leb total c.prev_total) refl,
  )
    where
      which :
          (b : Bool)
          → (eqb c.prev_total 0 || leb total c.prev_total) ≡ b
          → (is_ok (
                if b
                then unavail t.zero_float "no prior sample yet"
                else avail (share t (minus total c.prev_total) (minus idle c.prev_idle)))
              ≡ false)
            ⊎ Share t c
                (record { prev_total = total; prev_idle = idle })
                (if b
                  then unavail t.zero_float "no prior sample yet"
                  else avail (share t (minus total c.prev_total) (minus idle c.prev_idle))).value
      which true e = inl refl
      which false e = inr (sample-Share c total idle h tw iw (ground arith))

  counted-Reads : (c : LinuxCollector) (o : Option (List ℕ)) → IsSample c → Reads c (counted t c o)
  unfolding counted unavail
  counted-Reads c none h = (h, inl refl)
  counted-Reads c (some nums) h =
      sample-Reads c (sum 0 nums) (plus (nth 3 nums) (nth 4 nums)) h (sum-word 0 nums (omega arith))
        (plus-word (nth 3 nums) (nth 4 nums))

  -- From a previous sample of two uint64 and whatever /proc/stat holds, with every addition and subtraction
  -- wrapping around: the sample that is kept is again one of two uint64, and a usage that is reported as
  -- available is the share of a busy time in a positive total time that it does not exceed, where the total
  -- is what the counters advanced by since the previous sample and, unless the idle counter went back, the
  -- busy time is what is left of it after the idle time, or nothing.
  pub cpu_usage_percent-Reads :
      (file : Option (List String)) (c : LinuxCollector)
      → IsSample c
      → Reads c (cpu_usage_percent t file c)
  unfolding cpu_usage_percent unavail
  cpu_usage_percent-Reads none c h = (h, inl refl)
  cpu_usage_percent-Reads (some []) c h = (h, inl refl)
  cpu_usage_percent-Reads (some (line ∷ lines)) c h = counted-Reads c (cpu_nums t (t.split line)) h
