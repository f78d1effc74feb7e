-- ===== src/Nvme/Examples.antt =====
-- The driver of mylib/nvme.cc at concrete addresses, commands and completion entries.
use staut.Prelude.{
  ℕ, ◌+◌, ◌*◌, ◌≤◌, ◌<◌, ◌≡◌, ◌≢◌, ◌⊎◌, refl, arith, List, [], none, length, ◌==◌, if◌then◌else◌,
}
use staut.Nvme.Address.{
  make_rid, split_rid, buf4k_page, buf4k_offset, n_2mb_page, stripe-injective, split_rid-make_rid,
  buf4k-disjoint,
}
use staut.Nvme.Qp.{Qp, nowhere, check_cq}
use staut.Nvme.Poll.{Posted, polled, check_cq-Posted}

abbrev sector : ℕ
sector = 100

stripe-injective_example : sector ≡ 100
stripe-injective_example =
    stripe-injective 3 100 100 (omega arith) (omega arith) (omega arith) refl refl

split_rid-make_rid_example :
    split_rid 4 (make_rid 4 2 3 1000) ≡ record { did = 2; qid = 4; cid = 1000 }
split_rid-make_rid_example = split_rid-make_rid 4 2 3 1000 (omega arith) (omega arith)

buf4k-disjoint_example :
    (buf4k_offset 5 + 4096 ≤ 2 * 1024 * 1024)
    × (buf4k_page 5 < n_2mb_page)
    × ((buf4k_page 5 ≢ buf4k_page 7)
        ⊎ ((buf4k_offset 5 + 4096 ≤ buf4k_offset 7) ⊎ (buf4k_offset 7 + 4096 ≤ buf4k_offset 5)))
buf4k-disjoint_example = buf4k-disjoint 5 7 (omega arith) (omega arith) (λ e. omega arith)

-- Two commands are in flight in a queue of four; both are completed, and the second entry is the last.
abbrev queue : Qp
queue = record {
  n_sqe = 4;
  sq_tail = 2;
  cq_head = 3;
  cq_phase = 1;
  done_flag = λ _. 0;
  rbuf = λ _. none;
  len = λ _. 0;
  sqes = λ _. record { opc = 0; nsid = 1; prp1 = nowhere; cdw10 = 0; cdw11 = 0; cdw12 = 0 };
  cqes = λ i. record { cid = if i == 0 then 1 else 0; phase = if i == 3 then 1 else 0 };
  buf4k = λ _. [];
  copies = [];
  sq_doorbell = 2;
  cq_doorbell = 3;
}

check_cq-Posted_example :
    (cs : List ℕ) × Posted queue.n_sqe queue.cqes queue.cq_head queue.cq_phase cs
    × (length cs ≤ queue.n_sqe)
    × (check_cq queue ≡ polled queue cs)
check_cq-Posted_example = check_cq-Posted queue (omega arith) (omega arith)
