-- ===== src/Config/Ranges.antt =====
-- Every option that is accepted is in its range, and so is what the checks let through.
use distributed_enclave.Common.{
  ℕ, ◌-◌, ◌*◌, ◌/◌, ◌%◌, ◌^◌, ◌≤◌, ◌≡◌, refl, sym, arith, Bool, true, false, ◌||◌,
}
use distributed_enclave.Common.{
  List, [], ◌∷◌, Option, none, some, if◌then◌else◌, All, zero, suc, Option-cases, ◌⊎◌, inl, inr,
}
use mathlib.Core.Path.{subst}
use native.Mathlib.Nat.{mod-eq_of_lt, mul-le-mul_right, mul-le-mul_left, div-mul-le_self}
use distributed_enclave.Wire.{Bytes}
use distributed_enclave.Config.{
  Config, defaults, Step, flag, valued, exits, str_equal, parse_u64_arg, numeric, workload_option,
  output_option, option_step, Parsing, configured, exited, parse_options, check_options,
  read_options, uint64_max, uint32_max, int64_max, int_max, max_workers, max_runs,
}
use distributed_enclave.Config.Names.{
  opt_master, opt_ep_n, opt_cg_n, opt_cg_nzpc, opt_cg_iters, opt_stream_array_mib,
  opt_stream_warmup, opt_random_mib, opt_random_accesses, opt_random_warmup_accesses, opt_vmap_mib,
  opt_task_count, opt_task_bytes, opt_task_iters, opt_runs, opt_workload, opt_no_encrypt,
  opt_output,
}
use distributed_enclave.Config.Numbers.{parse_u64_arg-range}

-- A number with its least and its greatest value.
abbrev pub Between : ℕ × ℕ × ℕ → Type 0
Between (lo, v, hi) = (lo ≤ v) × (v ≤ hi)

abbrev pub ranges : Config → List (ℕ × ℕ × ℕ)
ranges cfg =
    (1, cfg.target, max_workers)
    ∷ (1, cfg.ep_n, int64_max)
    ∷ (1, cfg.cg_n, (int_max - 1))
    ∷ (1, cfg.cg_nzpc, int_max)
    ∷ (1, cfg.cg_iters, int_max)
    ∷ (1, cfg.stream_array_mib, 128)
    ∷ (0, cfg.stream_warmup, uint32_max)
    ∷ (32, cfg.random_mib, 256)
    ∷ (1, cfg.random_accesses, uint64_max)
    ∷ (0, cfg.random_warmup_accesses, uint64_max)
    ∷ (1, cfg.vmap_mib, 128)
    ∷ (0, cfg.task_count, uint64_max)
    ∷ (1, cfg.task_bytes, 1048576)
    ∷ (1, cfg.task_iters, uint64_max)
    ∷ (1, cfg.num_runs, max_runs)
    ∷ (1, cfg.workload, 6)
    ∷ []

abbrev pub InRange : Config → Type 0
InRange cfg = All Between (ranges cfg)

-- One number is another now.
abbrev replace : ℕ → ℕ × ℕ × ℕ → List (ℕ × ℕ × ℕ) → List (ℕ × ℕ × ℕ)
replace k x [] = []
replace zero x (y ∷ ys) = x ∷ ys
replace (suc k) x (y ∷ ys) = y ∷ replace k x ys

replaced :
    (k : ℕ) (x : ℕ × ℕ × ℕ) (xs : List (ℕ × ℕ × ℕ))
    → Between x
    → All Between xs
    → All Between (replace k x xs)
replaced k x [] ok all = all
replaced zero x (y ∷ ys) ok all = (ok, all.1)
replaced (suc k) x (y ∷ ys) ok all = (all.0, replaced k x ys ok all.1)

unfoldable StepOk : Step → Type 0
StepOk (flag cfg) = InRange cfg
StepOk (valued cfg) = InRange cfg
StepOk (exits status) = Unit

flag-StepOk : (cfg : Config) → InRange cfg → StepOk (flag cfg)
unfolding StepOk
flag-StepOk cfg r = r

valued-StepOk : (cfg : Config) → InRange cfg → StepOk (valued cfg)
unfolding StepOk
valued-StepOk cfg r = r

exits-StepOk : (status : ℕ) → StepOk (exits status)
unfolding StepOk
exits-StepOk status = tt

if-StepOk : (b : Bool) (s t : Step) → StepOk s → StepOk t → StepOk (if b then s else t)
if-StepOk true s t p q = p
if-StepOk false s t p q = q

numeric-StepOk :
    (lo hi : ℕ) (value : Option Bytes) (assign : ℕ → Config)
    → ((v : ℕ) → lo ≤ v → v ≤ hi → InRange (assign v))
    → StepOk (numeric lo hi value assign)
unfolding numeric
numeric-StepOk lo hi none assign ok = exits-StepOk 2
numeric-StepOk lo hi (some text) assign ok = elim (Option-cases (parse_u64_arg text lo hi)) [
  | inl bad ↦ rw (numeric, bad) (exits-StepOk 2)
  | inr (v, parsed) ↦
      (let (low, high) = parse_u64_arg-range text lo hi v parsed in
        rw (numeric, parsed) (valued-StepOk (assign v) (ok v low high)))
]

-- The number of a workload, at its place in the ranges.
named-InRange :
    (cfg : Config) (k : ℕ)
    → 1 ≤ k
    → k ≤ 6
    → InRange cfg
    → StepOk (valued (record cfg { workload = k }))
named-InRange cfg k low high r =
    valued-StepOk (record cfg { workload = k }) (replaced 15 (1, k, 6) (ranges cfg) (low, high) r)

workload_option-StepOk :
    (value : Option Bytes) (cfg : Config) → InRange cfg → StepOk (workload_option value cfg)
unfolding workload_option
workload_option-StepOk none cfg r = exits-StepOk 2
workload_option-StepOk (some word) cfg r =
    if-StepOk _ _ _ (named-InRange cfg 1 (omega arith) (omega arith) r) (
      if-StepOk _ _ _ (named-InRange cfg 2 (omega arith) (omega arith) r) (
        if-StepOk _ _ _ (named-InRange cfg 3 (omega arith) (omega arith) r) (
          if-StepOk _ _ _ (named-InRange cfg 4 (omega arith) (omega arith) r) (
            if-StepOk _ _ _ (named-InRange cfg 5 (omega arith) (omega arith) r) (
              if-StepOk _ _ _ (named-InRange cfg 6 (omega arith) (omega arith) r)
                (exits-StepOk 1))))))

output_option-StepOk :
    (value : Option Bytes) (cfg : Config) → InRange cfg → StepOk (output_option value cfg)
unfolding output_option
output_option-StepOk none cfg r = exits-StepOk 2
output_option-StepOk (some name) cfg r =
    if-StepOk _ _ _ (exits-StepOk 2) (valued-StepOk (record cfg { csv_file = some name }) r)

module _ (value : Option Bytes) (cfg : Config) (r : InRange cfg) where
  -- A test for a numeric option, which replaces the number at one place, and the tests behind it.
  if_numeric :
      (is_option : Bool) (place lo hi : ℕ) (assign : ℕ → Config)
      → ((v : ℕ) → ranges (assign v) ≡ replace place (lo, v, hi) (ranges cfg))
      → (otherwise : Step) → StepOk otherwise
      → StepOk (if is_option then numeric lo hi value assign else otherwise)
  if_numeric is_option place lo hi assign changes otherwise ok =
      if-StepOk is_option (numeric lo hi value assign) otherwise
        (numeric-StepOk lo hi value assign (λ v low high.
          subst (All Between) (sym (changes v))
            (replaced place (lo, v, hi) (ranges cfg) (low, high) r)))
        ok

  option_step-StepOk : (arg : Bytes) → StepOk (option_step arg value cfg)
  unfolding option_step
  option_step-StepOk arg =
      (if_numeric (str_equal arg opt_master) 0 1 max_workers (λ v. record cfg { target = v })
        (λ v. refl) _
        (if-StepOk (str_equal arg opt_workload) (workload_option value cfg) _
          (workload_option-StepOk value cfg r)
          (if_numeric (str_equal arg opt_ep_n) 1 1 int64_max (λ v. record cfg { ep_n = v })
            (λ v. refl) _
            (if_numeric (str_equal arg opt_cg_n) 2 1 (int_max - 1) (λ v. record cfg { cg_n = v })
              (λ v. refl) _
              (if_numeric (str_equal arg opt_cg_nzpc) 3 1 int_max (λ v. record cfg { cg_nzpc = v })
                (λ v. refl) _
                (if_numeric (str_equal arg opt_cg_iters) 4 1 int_max
                  (λ v. record cfg { cg_iters = v }) (λ v. refl) _
                  (if_numeric (str_equal arg opt_stream_array_mib) 5 1 128
                    (λ v. record cfg { stream_array_mib = v }) (λ v. refl) _
                    (if_numeric (str_equal arg opt_stream_warmup) 6 0 uint32_max
                      (λ v. record cfg { stream_warmup = v }) (λ v. refl) _
                      (if_numeric (str_equal arg opt_random_mib) 7 32 256
                        (λ v. record cfg { random_mib = v }) (λ v. refl) _
                        (if_numeric (str_equal arg opt_random_accesses) 8 1 uint64_max
                          (λ v. record cfg { random_accesses = v }) (λ v. refl) _
                          (if_numeric (str_equal arg opt_random_warmup_accesses) 9 0 uint64_max
                            (λ v. record cfg { random_warmup_accesses = v }) (λ v. refl) _
                            (if_numeric (str_equal arg opt_vmap_mib) 10 1 128
                              (λ v. record cfg { vmap_mib = v }) (λ v. refl) _
                              (if_numeric (str_equal arg opt_task_count) 11 0 uint64_max
                                (λ v. record cfg { task_count = v }) (λ v. refl) _
                                (if_numeric (str_equal arg opt_task_bytes) 12 1 1048576
                                  (λ v. record cfg { task_bytes = v }) (λ v. refl) _
                                  (if_numeric (str_equal arg opt_task_iters) 13 1 uint64_max
                                    (λ v. record cfg { task_iters = v }) (λ v. refl) _
                                    (if_numeric (str_equal arg opt_runs) 14 1 max_runs
                                      (λ v. record cfg { num_runs = v }) (λ v. refl) _
                                      (if-StepOk (str_equal arg opt_no_encrypt)
                                        (flag (record cfg { encrypt = false })) _
                                        (flag-StepOk (record cfg { encrypt = false }) r)
                                        (if-StepOk (str_equal arg opt_output)
                                          (output_option value cfg) _
                                          (output_option-StepOk value cfg r)
                                          (exits-StepOk 2)))))))))))))))))))

defaults-InRange : InRange defaults
defaults-InRange = ground arith

-- What a parsing that goes on has read.
abbrev ParsingOk : Parsing → Type 0
ParsingOk (configured cfg) = InRange cfg
ParsingOk (exited status) = Unit

-- What the loop does with the step of an option, when the rest of the arguments is read in order.
continue-ParsingOk :
    (step : Step) (go_flag go_valued : Config → Parsing)
    → StepOk step
    → ((cfg : Config) → InRange cfg → ParsingOk (go_flag cfg))
    → ((cfg : Config) → InRange cfg → ParsingOk (go_valued cfg))
    → ParsingOk (elim step [
      | flag cfg ↦ go_flag cfg
      | valued cfg ↦ go_valued cfg
      | exits status ↦ exited status
    ])
unfolding StepOk
continue-ParsingOk (flag cfg) go_flag go_valued ok f v = f cfg ok
continue-ParsingOk (valued cfg) go_flag go_valued ok f v = v cfg ok
continue-ParsingOk (exits status) go_flag go_valued ok f v = tt

parse_options-ParsingOk :
    (args : List Bytes) (cfg : Config) → InRange cfg → ParsingOk (parse_options args cfg)
unfolding parse_options
parse_options-ParsingOk [] cfg r = r
parse_options-ParsingOk (arg ∷ []) cfg r =
    continue-ParsingOk (option_step arg none cfg) configured configured
      (option_step-StepOk none cfg r arg) (λ cfg' r'. r') (λ cfg' r'. r')
parse_options-ParsingOk (arg ∷ value ∷ rest) cfg r =
    continue-ParsingOk (option_step arg (some value) cfg) (parse_options (value ∷ rest))
      (parse_options rest) (option_step-StepOk (some value) cfg r arg)
      (parse_options-ParsingOk (value ∷ rest)) (parse_options-ParsingOk rest)

no_wrap : (a b : ℕ) → a ≤ int_max → b ≤ int_max → a * b % 2 ^ 64 ≡ a * b
no_wrap a b h k = mod-eq_of_lt (omega (arith, mul-le-mul_right b h, mul-le-mul_left int_max k))

within : (n t m : ℕ) → n ≤ m / t → n * t ≤ m
within n t m h = omega (arith, mul-le-mul_right t h, div-mul-le_self m t)

Parsing-cases :
    (p : Parsing) → ((status : ℕ) × (p ≡ exited status)) ⊎ ((cfg : Config) × (p ≡ configured cfg))
Parsing-cases (exited status) = inl (status, refl)
Parsing-cases (configured cfg) = inr (cfg, refl)

checked :
    (skip_attestation : Bool) (cfg cfg' : Config)
    → InRange cfg
    → check_options skip_attestation cfg ≡ configured cfg'
    → (cfg' ≡ cfg)
      × (cfg.cg_n * cfg.cg_nzpc ≤ int_max)
      × (cfg.ep_n * cfg.target ≤ int64_max)
      × ((skip_attestation || cfg.encrypt) ≡ true)
unfolding check_options
checked skip_attestation cfg cfg' r e = (
  ground arith,
  (let (cg_n, (cg_nzpc, others)) = r.1.1 in
      let exact = no_wrap cfg.cg_n cfg.cg_nzpc (omega (arith, cg_n)) cg_nzpc.1 in
      ground (arith, exact)),
  within cfg.ep_n cfg.target int64_max (ground arith),
  ground arith,
)

-- A master that goes on has every number in its range, an index range of the CG matrix that fits
-- into an `int`, a number of EP pairs that fits into an `int64_t` for all workers together, and
-- encryption, unless the build skips attestation.
pub read_options-InRange :
    (skip_attestation : Bool) (args : List Bytes) (cfg : Config)
    → read_options skip_attestation args ≡ configured cfg
    → InRange cfg
      × (cfg.cg_n * cfg.cg_nzpc ≤ int_max)
      × (cfg.ep_n * cfg.target ≤ int64_max)
      × ((skip_attestation || cfg.encrypt) ≡ true)
unfolding read_options
read_options-InRange skip_attestation args cfg e =
    elim (Parsing-cases (parse_options args defaults)) [
      | inl (status, stopped) ↦ absurd (ground arith)
      | inr (cfg', parsed) ↦
          (let r : InRange cfg' =
              subst ParsingOk parsed (parse_options-ParsingOk args defaults defaults-InRange) in
            let e' : check_options skip_attestation cfg' ≡ configured cfg = ground arith in
            let (same, product, pairs, sealed) = checked skip_attestation cfg' cfg r e' in
            rw same (r, product, pairs, sealed))
    ]
