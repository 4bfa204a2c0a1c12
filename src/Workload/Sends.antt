-- ===== src/Workload/Sends.antt =====
-- The messages that one worker gets, for messages of any type.
use distributed_enclave.Common.{ℕ, zero, suc, ◌+◌, ◌≤◌, ◌<◌, ◌≡◌, refl, ap, arith, false, ◌==◌}
use distributed_enclave.Common.{
  List, [], ◌∷◌, ◌++◌, Option, some, if◌then◌else◌, fill, inl, inr, Bool-cases,
}

-- `for (worker = 0; worker < nworkers; worker++)` with one send.
abbrev pub to_all : {M : Type 0} → ℕ → M → List (ℕ × M)
to_all nworkers message = fill (λ w. (w, message)) 0 nworkers

-- What the master sends to one worker.
abbrev pub to_worker : {M : Type 0} → ℕ → List (ℕ × M) → List (Option M)
to_worker w [] = []
to_worker w ((worker, message) ∷ sends) =
    if worker == w then some message ∷ to_worker w sends else to_worker w sends

pub to_worker-append :
    {M : Type 0} (w : ℕ) (xs ys : List (ℕ × M))
    → to_worker w (xs ++ ys) ≡ to_worker w xs ++ to_worker w ys
to_worker-append w [] ys = refl
to_worker-append w ((worker, message) ∷ xs) ys = ground (arith, to_worker-append w xs ys)

to_worker-before :
    {M : Type 0} (w i n : ℕ) (m : ℕ → M) → w < i → to_worker w (fill (λ v. (v, m v)) i n) ≡ []
to_worker-before w i zero m h = refl
to_worker-before w i (suc n) m h =
    let apart : (i == w) ≡ false = ground arith in
    rw apart (to_worker-before w (i + 1) n m (omega arith))

pub to_worker-fill :
    {M : Type 0} (w i n : ℕ) (m : ℕ → M)
    → i ≤ w
    → w < i + n
    → to_worker w (fill (λ v. (v, m v)) i n) ≡ some (m w) ∷ []
to_worker-fill w i zero m low high = absurd (omega arith)
to_worker-fill w i (suc n) m low high = elim (Bool-cases (i == w)) [
  | inl here ↦
      rw (here, to_worker-before w (i + 1) n m (ground arith))
        (ap (λ v. some (m v) ∷ []) (ground arith))
  | inr apart ↦ rw apart (to_worker-fill w (i + 1) n m (ground arith) (omega arith))
]

pub to_worker-to_all :
    {M : Type 0} (w nworkers : ℕ) (m : M)
    → w < nworkers
    → to_worker w (to_all nworkers m) ≡ some m ∷ []
to_worker-to_all w nworkers m h = to_worker-fill w 0 nworkers (λ v. m) (omega arith) (omega arith)
