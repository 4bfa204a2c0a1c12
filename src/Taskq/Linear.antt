-- ===== src/Taskq/Linear.antt =====
-- `linear_map_apply` as a sum of entries in the field of two elements.
use distributed_enclave.Common.{ℕ, zero, suc, ◌+◌, ◌*◌, ◌/◌, ◌%◌, ◌^◌, ◌<◌, bit_xor}
use distributed_enclave.Common.{◌≡◌, refl, sym, ap, ◌∙◌, arith, List, [], ◌∷◌, map}
use distributed_enclave.Common.{◌==◌, if◌then◌else◌}
use distributed_enclave.Common.Xor.{
  bit_xor_comm, bit_xor_assoc, bit_xor_self, bit_xor_left_comm, zero-bit_xor, bit_xor-zero,
  bit_xor_step, div_two-bit_xor, div_pow-bit_xor, mod_pow-bit_xor, bit_xor_shift, bit_xor-lt,
  bit_xor_disjoint, bit_and-one,
}
use distributed_enclave.Taskq.{
  u64, xorshift64_step, apply_loop, linear_map_apply, linear_map_compose, unit_bits,
}
use native.Mathlib.Nat.{pow-suc, div-div-eq-div-mul}
use native.Mathlib.Numerals.{towards_suc}
use mathlib.Core.Path.{fun_ext}
use mathlib.Core.Logic.{◌⊎◌, inl, inr}

-- The entry is taken if the lowest digit of `w` is set.
abbrev pub entry : ℕ → ℕ → ℕ
entry m w = if w % 2 == 1 then m else 0

pub select : List ℕ → ℕ → ℕ
select [] w = 0
select (m ∷ ms) w = bit_xor (entry m w) (select ms (w / 2))

next_digit : (v bit : ℕ) → v / 2 ^ bit / 2 ≡ v / 2 ^ (bit + 1)
next_digit v bit =
    div-div-eq-div-mul v (2 ^ bit) 2
    ∙ ap (λ t. v / t) (sym (pow-suc 2 bit) ∙ ap (λ k. 2 ^ k) (omega arith))

apply_loop-select :
    (ms : List ℕ) (bit v r : ℕ) → apply_loop ms bit v r ≡ bit_xor r (select ms (v / 2 ^ bit))
unfolding apply_loop select
apply_loop-select [] bit v r = sym (bit_xor-zero r)
apply_loop-select (m ∷ ms) bit v r = ground (
  arith,
  next_digit v bit,
  bit_and-one (v / 2 ^ bit),
  apply_loop-select ms (bit + 1) v r,
  apply_loop-select ms (bit + 1) v (bit_xor r m),
  bit_xor_assoc r m (select ms (v / 2 ^ bit / 2)),
  zero-bit_xor (select ms (v / 2 ^ bit / 2)),
)

pub linear_map_apply-select : (ms : List ℕ) (v : ℕ) → linear_map_apply ms v ≡ select ms v
unfolding linear_map_apply
linear_map_apply-select ms v =
    apply_loop-select ms 0 v 0 ∙ zero-bit_xor _ ∙ ap (select ms) (omega arith)

-- A function that respects the exclusive or.
abbrev pub IsLinear : (ℕ → ℕ) → Type 0
IsLinear f = (a b : ℕ) → f (bit_xor a b) ≡ bit_xor (f a) (f b)

pub IsLinear-zero : (f : ℕ → ℕ) → IsLinear f → f 0 ≡ 0
IsLinear-zero f linear = let e : f 0 ≡ bit_xor (f 0) (f 0) = linear 0 0 in e ∙ bit_xor_self (f 0)

entry-bit_xor : (m a b : ℕ) → entry m (bit_xor a b) ≡ bit_xor (entry m a) (entry m b)
entry-bit_xor m a b =
    ground (arith, bit_xor_step a b, bit_xor_self m, zero-bit_xor m, bit_xor-zero m, zero-bit_xor 0)

xor_interchange :
    (a b c d : ℕ) → bit_xor (bit_xor a b) (bit_xor c d) ≡ bit_xor (bit_xor a c) (bit_xor b d)
xor_interchange a b c d =
    rw
      (
        bit_xor_assoc a b (bit_xor c d),
        bit_xor_left_comm b c d,
        sym (bit_xor_assoc a c (bit_xor b d)),
      )
      refl

pub select-IsLinear : (ms : List ℕ) → IsLinear (select ms)
unfolding select
select-IsLinear [] a b = sym (zero-bit_xor 0)
select-IsLinear (m ∷ ms) a b =
    rw
      (
        entry-bit_xor m a b,
        div_two-bit_xor a b,
        select-IsLinear ms (a / 2) (b / 2),
        xor_interchange (entry m a) (entry m b) (select ms (a / 2)) (select ms (b / 2)),
      )
      refl

entry-map : (f : ℕ → ℕ) → IsLinear f → (m w : ℕ) → f (entry m w) ≡ entry (f m) w
entry-map f linear m w = ground (arith, IsLinear-zero f linear)

-- A linear function goes under the selection.
pub select-map :
    (f : ℕ → ℕ) → IsLinear f → (ms : List ℕ) (w : ℕ) → f (select ms w) ≡ select (map f ms) w
unfolding select
select-map f linear [] w = IsLinear-zero f linear
select-map f linear (m ∷ ms) w =
    rw
      (
        linear (entry m w) (select ms (w / 2)),
        select-map f linear ms (w / 2),
        entry-map f linear m w,
      )
      refl

pub select-compose :
    (outer inner : List ℕ) (w : ℕ)
    → select (linear_map_compose outer inner) w ≡ select outer (select inner w)
unfolding linear_map_compose
select-compose outer inner w =
    rw (fun_ext (linear_map_apply-select outer))
      (sym (select-map (select outer) (select-IsLinear outer) inner w))

pub mod-two-cases : (w : ℕ) → (w % 2 ≡ 0) ⊎ (w % 2 ≡ 1)
mod-two-cases w = ground arith

double : (i t : ℕ) → t * 2 ^ (i + 1) ≡ t * 2 * 2 ^ i
double i t = simp towards_suc (omega (arith, ap (λ p. t * p) (pow-suc 2 i)))

entry-mul : (i w : ℕ) → entry (2 ^ i) w ≡ w % 2 * 2 ^ i
entry-mul i w = elim (mod-two-cases w) [ inl e ↦ rw e (omega arith) | inr e ↦ rw e (omega arith) ]

join_bit : (i w : ℕ) → bit_xor (w % 2 * 2 ^ i) (w / 2 * 2 ^ (i + 1)) ≡ w * 2 ^ i
join_bit i w =
    ap (bit_xor (w % 2 * 2 ^ i)) (double i (w / 2))
    ∙ bit_xor_shift i (w % 2) (w / 2 * 2)
    ∙ ap (λ t. t * 2 ^ i)
        (bit_xor_comm (w % 2) (w / 2 * 2)
          ∙ bit_xor_disjoint 1 (w / 2) (w % 2) (omega arith)
          ∙ omega arith)

pub select-unit_bits : (n i w : ℕ) → w < 2 ^ n → select (unit_bits n i) w ≡ w * 2 ^ i
unfolding select unit_bits
select-unit_bits zero i w h = ground arith
select-unit_bits (suc n) i w h =
    rw (select-unit_bits n (i + 1) (w / 2) (omega (arith, pow-suc 2 n)), entry-mul i w)
      (join_bit i w)

-- The two kinds of round that `xorshift64_step` makes.
abbrev left_round : ℕ → ℕ → ℕ
left_round k v = bit_xor v (u64 (v * 2 ^ k))

abbrev right_round : ℕ → ℕ → ℕ
right_round k v = bit_xor v (v / 2 ^ k)

left_round-IsLinear : (k : ℕ) → IsLinear (left_round k)
left_round-IsLinear k a b =
    ap (bit_xor (bit_xor a b))
      (ap u64 (sym (bit_xor_shift k a b)) ∙ mod_pow-bit_xor 64 (a * 2 ^ k) (b * 2 ^ k))
    ∙ xor_interchange a b (u64 (a * 2 ^ k)) (u64 (b * 2 ^ k))

right_round-IsLinear : (k : ℕ) → IsLinear (right_round k)
right_round-IsLinear k a b =
    ap (bit_xor (bit_xor a b)) (div_pow-bit_xor k a b) ∙ xor_interchange a b (a / 2 ^ k) (b / 2 ^ k)

step-rounds : (v : ℕ) → xorshift64_step v ≡ left_round 17 (right_round 7 (left_round 13 v))
unfolding xorshift64_step
step-rounds v = refl

pub xorshift64_step-IsLinear : IsLinear xorshift64_step
xorshift64_step-IsLinear a b = rw (fun_ext step-rounds) (
    ap (λ v. left_round 17 (right_round 7 v)) (left_round-IsLinear 13 a b)
    ∙ ap (left_round 17) (right_round-IsLinear 7 (left_round 13 a) (left_round 13 b))
    ∙ left_round-IsLinear 17 _ _)

pub xorshift64_step-lt : (v : ℕ) → v < 2 ^ 64 → xorshift64_step v < 2 ^ 64
xorshift64_step-lt v h =
    let a = left_round 13 v in
    let ha : a < 2 ^ 64 = bit_xor-lt 64 v (u64 (v * 2 ^ 13)) h (omega arith) in
    let b = right_round 7 a in
    let hb : b < 2 ^ 64 = bit_xor-lt 64 a (a / 2 ^ 7) ha (omega arith) in
    rw step-rounds (bit_xor-lt 64 b (u64 (b * 2 ^ 17)) hb (omega arith))
