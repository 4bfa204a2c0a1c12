-- ===== src/Config/Tests.antt =====
-- Runs of the option parsing.
use distributed_enclave.Common.{
  ◌*◌, ◌-◌, ◌^◌, ◌≤◌, ◌≡◌, ◌||◌, refl, true, false, List, [], ◌∷◌, some,
}
use distributed_enclave.Wire.{Bytes}
use distributed_enclave.Config.{
  Config, configured, exited, read_options, parse_options, check_options, option_step, numeric,
  parse_u64_arg, strtoull, skip_spaces, digits, defaults, uint64_max, int_max, int64_max,
}
use distributed_enclave.Config.Names.{opt_runs, opt_master, opt_no_encrypt}
use distributed_enclave.Config.Ranges.{InRange, read_options-InRange}

abbrev text_25 : Bytes
text_25 = b'2' ∷ b'5' ∷ []

-- " -1": the test for a minus looks at the first character only.
spaced_minus : parse_u64_arg (32 ∷ b'-' ∷ b'1' ∷ []) 1 uint64_max ≡ some (2 ^ 64 - 1)
unfolding parse_u64_arg strtoull skip_spaces digits
spaced_minus = refl

parsed_25 : parse_u64_arg text_25 1 1000 ≡ some 25
unfolding parse_u64_arg strtoull skip_spaces digits
parsed_25 = refl

abbrev args : List Bytes
args = opt_runs ∷ text_25 ∷ opt_master ∷ (b'4' ∷ []) ∷ []

abbrev chosen : Config
chosen = record defaults { num_runs = 25; target = 4 }

chosen_read : read_options false args ≡ configured chosen
unfolding read_options parse_options check_options option_step numeric parse_u64_arg strtoull
    skip_spaces digits
chosen_read = refl

plaintext_refused : read_options false (opt_no_encrypt ∷ []) ≡ exited 2
unfolding read_options parse_options check_options option_step
plaintext_refused = refl

read_options-InRange_example :
    InRange chosen
    × (chosen.cg_n * chosen.cg_nzpc ≤ int_max)
    × (chosen.ep_n * chosen.target ≤ int64_max)
    × ((false || chosen.encrypt) ≡ true)
read_options-InRange_example = read_options-InRange false args chosen chosen_read
