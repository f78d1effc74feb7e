-- ===== src/Uring/Examples.antt =====
-- The rings of mylib/iouringlib.c with concrete entries.
use staut.Prelude.{ℕ, ◌+◌, ◌%◌, ◌<◌, ◌≡◌, refl, arith, ◌==◌, if◌then◌else◌, List, length, some}
use staut.Uring.Rings.{Submitter, answered, refused, pending, stopped, iouring_check, iouring_op}
use staut.Uring.Reap.{
  End, Ready, mark, answer_of, head_of, iouring_check-Ready, iouring_check-stopped,
}
use staut.Uring.Submit.{iouring_depth, iouring_op-keeps}

-- Requests 7 and 8 are answered, the second with an error. Two more wait.
abbrev rings : Submitter
rings = record {
  sq_head = 4294967295;
  sq_tail = 1;
  sq_entries = 1024;
  sqes = λ i. record { opcode = 22; fd = 3; addr = 0; len = 512; off = 0; user_data = i };
  cq_head = 4294967295;
  cq_tail = 1;
  cq_entries = 1024;
  cqes = λ i.
      if i == 1023
      then record { user_data = 7; res = answered 512 }
      else record { user_data = 8; res = refused 5 };
  done_flag = λ _. 0;
}

iouring_check-Ready_example :
    (end : End) × (cs : List ℕ) × Ready rings.cqes rings.cq_entries rings.cq_tail end rings.cq_head
      cs
    × (iouring_check rings ≡ (
      answer_of end (length cs),
      record rings {
        cq_head = head_of end rings.cq_head rings.cq_tail;
        done_flag = mark rings.done_flag cs;
      },
    ))
iouring_check-Ready_example = iouring_check-Ready rings (omega arith) (omega arith)

check-rings : (iouring_check rings).0 ≡ stopped
unfolding iouring_check
check-rings = refl

iouring_check-stopped_example :
    ((iouring_check rings).1.cq_head ≡ rings.cq_head)
    × ((iouring_check (iouring_check rings).1).0 ≡ stopped)
iouring_check-stopped_example = iouring_check-stopped rings (omega arith) (omega arith) check-rings

iouring_op-keeps_example :
    (index : ℕ) × (t : Submitter) × (iouring_op rings 23 4 0 100 512 ≡ some (index, t))
    × (index < iouring_depth)
    × (t.sqes index
        ≡ record { opcode = 23; fd = 4; addr = 0; len = 100; off = 512; user_data = index })
    × (t.done_flag index ≡ 0)
    × ((k : ℕ)
        → k < pending rings.sq_head rings.sq_tail
        → t.sqes ((rings.sq_head + k) % iouring_depth)
          ≡ rings.sqes ((rings.sq_head + k) % iouring_depth))
    × (pending t.sq_head t.sq_tail ≡ pending rings.sq_head rings.sq_tail + 1)
iouring_op-keeps_example =
    iouring_op-keeps rings 23 4 0 100 512 refl (omega arith) (omega arith) (omega arith)
      (omega arith)

abbrev full_rings : Submitter
full_rings = record rings { sq_head = 5; sq_tail = 1029 }
