-- ===== src/Monitoring/Tests.antt =====
-- A /proc/stat of seven tens, read after a sample of half of it.
use qrx_node_suite.Prelude.{
  ◌≡◌, refl, ℕ, ◌*◌, ◌/◌, false, none, some, List, [], ◌∷◌, String, if◌then◌else◌, ◌==◌, arith,
}
use qrx_node_suite.Node.Reports.{avail}
use qrx_node_suite.Monitoring.{Texts, LinuxCollector, cpu_usage_percent, sum, plus, minus, nth}
use qrx_node_suite.Monitoring.Cpu.{IsSample, Reads, cpu_usage_percent-Reads}

-- Per mille in place of floats.
abbrev texts : Texts ℕ
texts = record {
  split = λ line. "cpu" ∷ "10" ∷ "10" ∷ "10" ∷ "10" ∷ "10" ∷ "10" ∷ "10" ∷ [];
  trim = λ s. s;
  trim_colon = λ s. s;
  cut_colon = λ s. none;
  is_vm_rss = λ s. false;
  parse_uint = λ s. if s == "10" then some 10 else none;
  parse_float = λ s. none;
  zero_float = 0;
  percent = λ a b. (a * 1000) / b;
}

abbrev half : LinuxCollector
half = record { prev_total = 30; prev_idle = 10 }

half-IsSample : IsSample half
half-IsSample = record { total_word = omega arith; idle_word = omega arith }

abbrev stat : List String
stat = "cpu 10 10 10 10 10 10 10" ∷ []

-- Forty ticks, ten of them idle.
half_share : (cpu_usage_percent texts (some stat) half).0 ≡ avail 750
unfolding cpu_usage_percent sum plus minus nth avail
half_share = refl

cpu_usage_percent-Reads_example : Reads texts half (cpu_usage_percent texts (some stat) half)
cpu_usage_percent-Reads_example = cpu_usage_percent-Reads texts (some stat) half half-IsSample
