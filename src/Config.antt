-- ===== src/Config.antt =====
-- The command line of the master: the parsing of numbers and of the options in `main`, and the checks behind it,
-- in src/master_npb.c. A C string is the list of its characters; `strtoull` is that of ISO C.
pub mod Names
pub mod Numbers
pub mod Ranges
mod Tests
use distributed_enclave.Common.{
  ℕ, zero, suc, ◌+◌, ◌-◌, ◌*◌, ◌/◌, ◌%◌, ◌^◌, Bool, true, false, not, ◌||◌, ◌&&◌, ltb, leb, ◌==◌,
  length,
}
use distributed_enclave.Common.{List, [], ◌∷◌, Option, none, some, if◌then◌else◌}
use distributed_enclave.Wire.{Bytes}
use Names.{
  opt_master, opt_workload, opt_ep_n, opt_cg_n, opt_cg_nzpc, opt_cg_iters, opt_stream_array_mib,
  opt_stream_warmup, opt_random_mib, opt_random_accesses, opt_random_warmup_accesses, opt_vmap_mib,
  opt_task_count, opt_task_bytes, opt_task_iters, opt_runs, opt_no_encrypt, opt_output, word_ep,
  word_cg, word_stream, word_random, word_vmap, word_taskq,
}

abbrev pub uint64_max : ℕ
uint64_max = 2 ^ 64 - 1

abbrev pub int64_max : ℕ
int64_max = 2 ^ 63 - 1

abbrev pub uint32_max : ℕ
uint32_max = 2 ^ 32 - 1

abbrev pub int_max : ℕ
int_max = 2 ^ 31 - 1

abbrev pub max_workers : ℕ
max_workers = 128

abbrev pub max_runs : ℕ
max_runs = 1000

abbrev pub is_space : ℕ → Bool
is_space c = (c == 32) || (leb 9 c && leb c 13)

abbrev pub is_digit : ℕ → Bool
is_digit c = leb b'0' c && leb c b'9'

unfoldable pub skip_spaces : Bytes → Bytes
skip_spaces [] = []
skip_spaces (c ∷ text) = let rest = skip_spaces text in if is_space c then rest else c ∷ text

-- The digits at the start: their value, how many there are, and the text behind them.
unfoldable pub digits : ℕ → ℕ → Bytes → ℕ × ℕ × Bytes
digits value count [] = (value, count, [])
digits value count (c ∷ text) =
    let further = digits (value * 10 + (c - b'0')) (count + 1) text in
    if is_digit c then further else (value, count, c ∷ text)

-- What `strtoull(text, &end, 10)` gives: the value, whether `errno` is ERANGE, and the text at `end`.
pub record Parsed : Type 0 where
  pub value : ℕ
  pub out_of_range : Bool
  pub rest : Bytes

abbrev negated : Bool → ℕ → ℕ
negated minus value = if minus then (2 ^ 64 - value) % 2 ^ 64 else value

abbrev pub after_sign : Bytes → Bytes → Bool → Parsed
after_sign whole text minus =
    let (value, count, rest) = digits 0 0 text in
    if count == 0
    then record { value = 0; out_of_range = false; rest = whole }
    else if ltb uint64_max value
    then record { value = uint64_max; out_of_range = true; rest = rest }
    else record { value = negated minus value; out_of_range = false; rest = rest }

abbrev pub at_sign : Bytes → Bytes → Parsed
at_sign whole [] = after_sign whole [] false
at_sign whole (c ∷ text) =
    if c == b'-'
    then after_sign whole text true
    else if c == b'+'
    then after_sign whole text false
    else after_sign whole (c ∷ text) false

unfoldable pub strtoull : Bytes → Parsed
strtoull text = at_sign text (skip_spaces text)

abbrev pub starts_with_minus : Bytes → Bool
starts_with_minus [] = false
starts_with_minus (c ∷ text) = c == b'-'

unfoldable pub parse_u64_arg : Bytes → ℕ → ℕ → Option ℕ
parse_u64_arg text min_value max_value =
    if (length text == 0) || starts_with_minus text
    then none
    else (let parsed = strtoull text in
        if parsed.out_of_range
          || (not (length parsed.rest == 0)
              || (ltb parsed.value min_value || ltb max_value parsed.value))
        then none
        else some parsed.value)

pub record Config : Type 0 where
  pub target : ℕ
  pub num_runs : ℕ
  pub encrypt : Bool
  pub workload : ℕ
  pub ep_n : ℕ
  pub cg_n : ℕ
  pub cg_nzpc : ℕ
  pub cg_iters : ℕ
  pub stream_array_mib : ℕ
  pub stream_warmup : ℕ
  pub random_mib : ℕ
  pub random_accesses : ℕ
  pub random_warmup_accesses : ℕ
  pub vmap_mib : ℕ
  pub task_count : ℕ
  pub task_bytes : ℕ
  pub task_iters : ℕ
  pub csv_file : Option Bytes

-- The values before the loop; no `csv_file` stands for the default name.
abbrev pub defaults : Config
defaults = record {
  target = 2;
  num_runs = 10;
  encrypt = true;
  workload = 1;
  ep_n = 67108864;
  cg_n = 14000;
  cg_nzpc = 11;
  cg_iters = 15;
  stream_array_mib = 128;
  stream_warmup = 2;
  random_mib = 256;
  random_accesses = 50000000;
  random_warmup_accesses = 5000000;
  vmap_mib = 64;
  task_count = 0;
  task_bytes = 64;
  task_iters = 100000;
  csv_file = none;
}

-- One round of the loop: an option without a value, one with a value, or the end with a status.
pub data Step : Type 0 where
  flag : Config → Step
  valued : Config → Step
  exits : ℕ → Step

abbrev pub str_equal : Bytes → Bytes → Bool
str_equal [] [] = true
str_equal [] (b ∷ ys) = false
str_equal (a ∷ xs) [] = false
str_equal (a ∷ xs) (b ∷ ys) = (a == b) && str_equal xs ys

-- `parse_next_u64`, and the assignment behind it.
unfoldable pub numeric : ℕ → ℕ → Option Bytes → (ℕ → Config) → Step
numeric min_value max_value none assign = exits 2
numeric min_value max_value (some text) assign = elim (parse_u64_arg text min_value max_value) [
  | none ↦ exits 2
  | some parsed ↦ valued (assign parsed)
]

unfoldable pub workload_option : Option Bytes → Config → Step
workload_option none cfg = exits 2
workload_option (some word) cfg =
    if str_equal word word_ep
    then valued (record cfg { workload = 1 })
    else if str_equal word word_cg
    then valued (record cfg { workload = 2 })
    else if str_equal word word_stream
    then valued (record cfg { workload = 3 })
    else if str_equal word word_random
    then valued (record cfg { workload = 4 })
    else if str_equal word word_vmap
    then valued (record cfg { workload = 5 })
    else if str_equal word word_taskq
    then valued (record cfg { workload = 6 })
    else exits 1

unfoldable pub output_option : Option Bytes → Config → Step
output_option none cfg = exits 2
output_option (some name) cfg =
    if length name == 0 then exits 2 else valued (record cfg { csv_file = some name })

-- The chain of tests for one argument and, if there is one, the argument behind it.
unfoldable pub option_step : Bytes → Option Bytes → Config → Step
option_step arg value cfg =
    if str_equal arg opt_master
    then numeric 1 max_workers value (λ v. record cfg { target = v })
    else if str_equal arg opt_workload
    then workload_option value cfg
    else if str_equal arg opt_ep_n
    then numeric 1 int64_max value (λ v. record cfg { ep_n = v })
    else if str_equal arg opt_cg_n
    then numeric 1 (int_max - 1) value (λ v. record cfg { cg_n = v })
    else if str_equal arg opt_cg_nzpc
    then numeric 1 int_max value (λ v. record cfg { cg_nzpc = v })
    else if str_equal arg opt_cg_iters
    then numeric 1 int_max value (λ v. record cfg { cg_iters = v })
    else if str_equal arg opt_stream_array_mib
    then numeric 1 128 value (λ v. record cfg { stream_array_mib = v })
    else if str_equal arg opt_stream_warmup
    then numeric 0 uint32_max value (λ v. record cfg { stream_warmup = v })
    else if str_equal arg opt_random_mib
    then numeric 32 256 value (λ v. record cfg { random_mib = v })
    else if str_equal arg opt_random_accesses
    then numeric 1 uint64_max value (λ v. record cfg { random_accesses = v })
    else if str_equal arg opt_random_warmup_accesses
    then numeric 0 uint64_max value (λ v. record cfg { random_warmup_accesses = v })
    else if str_equal arg opt_vmap_mib
    then numeric 1 128 value (λ v. record cfg { vmap_mib = v })
    else if str_equal arg opt_task_count
    then numeric 0 uint64_max value (λ v. record cfg { task_count = v })
    else if str_equal arg opt_task_bytes
    then numeric 1 1048576 value (λ v. record cfg { task_bytes = v })
    else if str_equal arg opt_task_iters
    then numeric 1 uint64_max value (λ v. record cfg { task_iters = v })
    else if str_equal arg opt_runs
    then numeric 1 max_runs value (λ v. record cfg { num_runs = v })
    else if str_equal arg opt_no_encrypt
    then flag (record cfg { encrypt = false })
    else if str_equal arg opt_output
    then output_option value cfg
    else exits 2

-- The status of an exit, or the configuration.
pub data Parsing : Type 0 where
  configured : Config → Parsing
  exited : ℕ → Parsing

unfoldable pub parse_options : List Bytes → Config → Parsing
parse_options [] cfg = configured cfg
parse_options (arg ∷ []) cfg = elim (option_step arg none cfg) [
  | flag cfg' ↦ configured cfg'
  | valued cfg' ↦ configured cfg'
  | exits status ↦ exited status
]
parse_options (arg ∷ value ∷ rest) cfg = elim (option_step arg (some value) cfg) [
  | flag cfg' ↦ parse_options (value ∷ rest) cfg'
  | valued cfg' ↦ parse_options rest cfg'
  | exits status ↦ exited status
]

-- The checks behind the loop.
unfoldable pub check_options : Bool → Config → Parsing
check_options skip_attestation cfg =
    if ltb int_max (cfg.cg_n * cfg.cg_nzpc % 2 ^ 64)
    then exited 2
    else if ltb (int64_max / cfg.target) cfg.ep_n
    then exited 2
    else if not skip_attestation && not cfg.encrypt
    then exited 2
    else configured cfg

unfoldable pub read_options : Bool → List Bytes → Parsing
read_options skip_attestation args = elim (parse_options args defaults) [
  | exited status ↦ exited status
  | configured cfg ↦ check_options skip_attestation cfg
]
