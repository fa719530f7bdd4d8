-- ===== src/Monitoring.antt =====
-- agent/monitoring/linux.go: what the collector makes of the files of /proc.
--
-- A file is the list of its lines, `none` where it cannot be read. Floats, and the functions of Go's strings
-- and strconv, are a parameter. A uint64 is a number below 2 ^ 64, and its arithmetic wraps around.
pub mod Cpu
mod Tests
use qrx_node_suite.Prelude.{
  ℕ, zero, suc, ◌+◌, ◌-◌, ◌*◌, ◌%◌, String, Bool, true, false, ◌&&◌, ◌||◌, Option, none, some, List,
  [], ◌∷◌, length, eqb, ltb, leb, if◌then◌else◌, ◌==◌,
}
use qrx_node_suite.Prelude.Options.{◌>>=◌}
use qrx_node_suite.QrxCli.{word, lookup}
use qrx_node_suite.Node.{Value}
use qrx_node_suite.Node.Reports.{avail, unavail}

pub record Texts (F : Type 0) : Type 0 where
  -- strings.Fields, strings.TrimSpace, strings.TrimSuffix(_, ":"), strings.SplitN(_, ":", 2) into two,
  -- strings.HasPrefix(_, "VmRSS:").
  pub split : String → List String
  pub trim : String → String
  pub trim_colon : String → String
  pub cut_colon : String → Option (String × String)
  pub is_vm_rss : String → Bool
  -- strconv.ParseUint of base 10 and 64 bits, strconv.ParseFloat.
  pub parse_uint : String → Option ℕ
  pub parse_float : String → Option F
  pub zero_float : F
  -- float64(a) / float64(b) * 100.
  pub percent : ℕ → ℕ → F

pub record LinuxCollector : Type 0 where
  pub prev_total : ℕ
  pub prev_idle : ℕ

unfoldable pub plus : ℕ → ℕ → ℕ
plus a b = (a + b) % word

unfoldable pub minus : ℕ → ℕ → ℕ
minus a b = (a + (word - b)) % word

unfoldable pub sum : ℕ → List ℕ → ℕ
unfolding plus
sum s [] = s
sum s (n ∷ ns) = sum (plus s n) ns

-- nums[i].
unfoldable pub nth : ℕ → List ℕ → ℕ
nth i [] = 0
nth zero (n ∷ ns) = n
nth (suc i) (n ∷ ns) = nth i ns

module _ {F : Type 0} (t : Texts F) where
  -- The first `n` fields as numbers, if all are.
  unfoldable pub parse_nums : ℕ → List String → Option (List ℕ)
  parse_nums zero fs = some []
  parse_nums (suc n) [] = none
  parse_nums (suc n) (f ∷ fs) = do v ← t.parse_uint f; rest ← parse_nums n fs; some (v ∷ rest)

  unfoldable pub cpu_nums : List String → Option (List ℕ)
  unfolding parse_nums
  cpu_nums [] = none
  cpu_nums (label ∷ fs) = if leb 7 (length fs) && (label == "cpu") then parse_nums 7 fs else none

  unfoldable pub share : ℕ → ℕ → F
  unfolding minus
  share delta_total delta_idle =
      let idle = if ltb delta_total delta_idle then delta_total else delta_idle in
      t.percent (minus delta_total idle) delta_total

  -- cpuUsagePercent once the counters are read: the new sample takes the place of the old one.
  unfoldable pub sample : LinuxCollector → ℕ → ℕ → Value F × LinuxCollector
  unfolding avail unavail share minus
  sample c total idle = (
    if eqb c.prev_total 0 || leb total c.prev_total
        then unavail t.zero_float "no prior sample yet"
        else avail (share (minus total c.prev_total) (minus idle c.prev_idle)),
    record { prev_total = total; prev_idle = idle },
  )

  -- The reasons of a bad first line are one.
  unfoldable pub counted : LinuxCollector → Option (List ℕ) → Value F × LinuxCollector
  unfolding sample sum nth plus
  counted c none = (unavail t.zero_float "unexpected /proc/stat format", c)
  counted c (some nums) = sample c (sum 0 nums) (plus (nth 3 nums) (nth 4 nums))

  unfoldable pub cpu_usage_percent :
      Option (List String) → LinuxCollector → Value F × LinuxCollector
  unfolding counted cpu_nums
  cpu_usage_percent none c = (unavail t.zero_float "open /proc/stat", c)
  cpu_usage_percent (some []) c = (unavail t.zero_float "read /proc/stat: empty", c)
  cpu_usage_percent (some (line ∷ lines)) c = counted c (cpu_nums (t.split line))

  unfoldable pub parsed_float : String → Value F
  unfolding avail unavail
  parsed_float s = elim (t.parse_float s) [
    | none ↦ unavail t.zero_float "parse /proc/loadavg"
    | some v ↦ avail v
  ]

  -- The fields of the file.
  unfoldable pub load_average : Option (List String) → Value F × Value F × Value F
  unfolding parsed_float unavail
  load_average (some (a ∷ b ∷ c ∷ rest)) = (parsed_float a, parsed_float b, parsed_float c)
  load_average (some _) =
      let u = unavail t.zero_float "unexpected /proc/loadavg format" in (u, u, u)
  load_average none = let u = unavail t.zero_float "read /proc/loadavg" in (u, u, u)

  -- The map that memory builds: a later line of a key stands before an earlier one.
  unfoldable pub meminfo : List (String × ℕ) → List String → List (String × ℕ)
  meminfo vals [] = vals
  meminfo vals (line ∷ lines) = elim (t.split line) [
    | [] ↦ meminfo vals lines
    | key ∷ fs ↦ elim fs [
      | [] ↦ meminfo vals lines
      | n ∷ more ↦ elim (t.parse_uint n) [
        | none ↦ meminfo vals lines
        | some v ↦ meminfo ((t.trim_colon key, (v * 1024) % word) ∷ vals) lines
      ]
    ]
  ]

unfoldable pub used : ℕ → Option ℕ → Value ℕ
unfolding avail unavail minus
used total none = unavail 0 "MemAvailable not found in /proc/meminfo"
used total (some available) = avail (minus total available)

unfoldable pub memory_of : Option ℕ → Option ℕ → Value ℕ × Value ℕ
unfolding avail unavail used
memory_of none available = let u = unavail 0 "MemTotal not found in /proc/meminfo" in (u, u)
memory_of (some total) available = (avail total, used total available)

module _ {F : Type 0} (t : Texts F) where
  unfoldable pub memory : Option (List String) → Value ℕ × Value ℕ
  unfolding memory_of meminfo lookup unavail
  memory none = let u = unavail 0 "open /proc/meminfo" in (u, u)
  memory (some lines) =
      let vals = meminfo t [] lines in
      memory_of (lookup "MemTotal" vals) (lookup "MemAvailable" vals)

  -- A counter that cannot be parsed adds nothing.
  unfoldable pub added : ℕ → String → ℕ
  unfolding plus
  added n s = elim (t.parse_uint s) [ none ↦ n | some v ↦ plus n v ]

  unfoldable pub field : ℕ → List String → String
  field i [] = ""
  field zero (s ∷ ss) = s
  field (suc i) (s ∷ ss) = field i ss

  unfoldable pub interface : ℕ × ℕ → Option (String × String) → ℕ × ℕ
  unfolding added field
  interface totals none = totals
  interface (rx, tx) (some (name, counters)) =
      let fs = t.split counters in
      if t.trim name == "lo" || ltb (length fs) 9
      then (rx, tx)
      else (added rx (field 0 fs), added tx (field 8 fs))

  unfoldable pub interfaces : ℕ × ℕ → List String → ℕ × ℕ
  unfolding interface
  interfaces totals [] = totals
  interfaces totals (line ∷ lines) = interfaces (interface totals (t.cut_colon line)) lines

  -- The first two lines are the header.
  unfoldable pub network : Option (List String) → Value ℕ × Value ℕ
  unfolding interfaces avail unavail
  network none = let u = unavail 0 "open /proc/net/dev" in (u, u)
  network (some (header ∷ columns ∷ lines)) =
      let (rx, tx) = interfaces (0, 0) lines in (avail rx, avail tx)
  network (some _) = (avail 0, avail 0)

  unfoldable pub rss_line : ℕ → Bool → List String → ℕ
  rss_line rss true (label ∷ n ∷ rest) = elim (t.parse_uint n) [
    | none ↦ rss
    | some v ↦ (v * 1024) % word
  ]
  rss_line rss _ _ = rss

  unfoldable pub vm_rss : ℕ → List String → ℕ
  unfolding rss_line
  vm_rss rss [] = rss
  vm_rss rss (line ∷ lines) = vm_rss (rss_line rss (t.is_vm_rss line) (t.split line)) lines

  unfoldable pub no_process : String → Value F × Value ℕ
  unfolding unavail
  no_process reason = (unavail t.zero_float reason, unavail 0 reason)

  -- The process, where its identifier is configured and known, and the lines of its status file.
  unfoldable pub qrx_process : Option (Option (Option (List String))) → Value F × Value ℕ
  unfolding vm_rss avail unavail no_process
  qrx_process none = no_process "QRX process PID not configured"
  qrx_process (some none) = no_process "QRX process not running"
  qrx_process (some (some none)) = no_process "read status"
  qrx_process (some (some (some lines))) =
      (unavail t.zero_float "per-process CPU sampling not implemented yet", avail (vm_rss 0 lines))

pub record Statfs : Type 0 where
  pub blocks : ℕ
  pub bfree : ℕ
  pub bavail : ℕ
  pub bsize : ℕ

unfoldable pub times : ℕ → ℕ → ℕ
times a b = (a * b) % word

-- Total, used and free bytes.
unfoldable pub disk : Option Statfs → Value ℕ × Value ℕ × Value ℕ
unfolding avail unavail times minus
disk none = let u = unavail 0 "statfs" in (u, u, u)
disk (some st) =
    let total = times st.blocks st.bsize in
    (avail total, avail (minus total (times st.bfree st.bsize)), avail (times st.bavail st.bsize))
