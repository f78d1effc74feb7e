-- ===== src/Nvme/DeliveryExamples.antt =====
-- The driver of mylib/nvme.cc with a drive whose sectors all hold the same number.
use staut.Prelude.{
  ℕ, zero, suc, ◌+◌, ◌*◌, ◌≡◌, ◌↔◌, refl, ap, arith, none, some, List, [], ◌∷◌, ◌++◌, length,
  update,
}
use staut.Nvme.Qp.{Copy, new_qp, new_sqe, await_slot, issue_read, check_cq}
use staut.Nvme.Device.{Ask, reads, System, initial, executed, Reach, start, next, read_req, execute}
use staut.Nvme.Delivery.{check_cq-delivered, check_cq-executed}

abbrev repeat : ℕ → ℕ → List ℕ
repeat v zero = []
repeat v (suc n) = v ∷ repeat v n

length-repeat : (v n : ℕ) → length (repeat v n) ≡ n
length-repeat v zero = refl
length-repeat v (suc n) = ap suc (length-repeat v n)

abbrev read_same : ℕ → ℕ → ℕ → List ℕ
read_same d a k = repeat d (512 * k)

abbrev count_writes : ℕ → ℕ → ℕ → List ℕ → ℕ
count_writes d a k bytes = d + 1

abbrev fresh : System ℕ
fresh = initial 1 (λ _. none) (λ _. 0) 7

-- Four bytes of block 16 are asked for, and the drive reads the block.
abbrev requested : System ℕ
requested = record fresh {
  qp =
      issue_read 1 (record fresh.qp { done_flag = update fresh.qp.done_flag 0 0; sq_tail = 1 }) 0 16
        1 4 900;
  flight = update fresh.flight 0 (some (reads 16 1 4 900));
}

abbrev served : System ℕ
served = executed 1 read_same count_writes requested 0 (reads 16 1 4 900)

run : Reach 1 read_same count_writes 1 (λ _. none) (λ _. 0) 7 served
unfolding new_sqe await_slot new_qp
run =
    next
      (next start (
        read_req 16 1 4 900 0
          (record fresh.qp { done_flag = update fresh.qp.done_flag 0 0; sq_tail = 1 }) refl
          (omega arith) (omega arith) (omega arith) (omega arith) refl))
      (execute 0 (reads 16 1 4 900) refl refl)

check_cq-delivered_example :
    ((check_cq served.qp).copies ≡ served.spec.delivered)
    × (served.disk ≡ served.spec.disk)
    × (rest : List Copy) × (served.spec.delivered ≡ served.qp.copies ++ rest)
check_cq-delivered_example =
    check_cq-delivered 1 read_same count_writes (λ d a k. length-repeat d (512 * k)) 1 (λ _. none)
      (λ _. 0) 7 served run

check_cq-executed_example :
    ((check_cq served.qp).done_flag 0 ≡ 0) ↔ ((a : Ask) × (served.flight 0 ≡ some a))
check_cq-executed_example =
    check_cq-executed 1 read_same count_writes (λ d a k. length-repeat d (512 * k)) 1 (λ _. none)
      (λ _. 0) 7 served run 0

-- The four bytes arrive.
delivered : served.spec.delivered ≡ record { dst = 900; bytes = 7 ∷ 7 ∷ 7 ∷ 7 ∷ [] } ∷ []
delivered = refl
