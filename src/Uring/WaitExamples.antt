-- ===== src/Uring/WaitExamples.antt =====
-- A read and a write through the rings of mylib/iouringlib.c, answered in the second wait.
use staut.Prelude.{ℕ, ◌%◌, ◌≡◌, ◌≢◌, refl, arith, ◌==◌, if◌then◌else◌, some, [], ◌∷◌, update, inl}
use staut.Uring.Rings.{
  Submitter, succ, answered, check_loop, iouring_check, iouring_setup, op_read, op_write,
}
use staut.Uring.Reap.{at_tail}
use staut.Uring.Wait.{Answers, io_uring_read, io_uring_write, io_uring_read-answered}

abbrev empty_rings : Submitter
empty_rings =
    iouring_setup 1024 1024
      (λ i. record { opcode = 0; fd = 0; addr = 0; len = 0; off = 0; user_data = i })
      (λ i. record { user_data = 0; res = answered 0 })

-- The kernel takes what was submitted, and posts the answer to request 0 in wait 1.
abbrev take_all : Submitter → Submitter
take_all s = record s { sq_head = s.sq_tail }

abbrev post_second : ℕ → Submitter → Submitter
post_second k s =
    if k == 1
    then record s {
      cq_tail = succ s.cq_tail;
      cqes =
          update s.cqes (s.cq_tail % s.cq_entries) (record { user_data = 0; res = answered 512 });
    }
    else s

abbrev no_yield : ℕ → Submitter → Submitter
no_yield k s = s

read-Answers : Answers take_all post_second no_yield 1 op_read empty_rings 3 4096 512 0
unfolding iouring_setup iouring_check check_loop
read-Answers = record {
  head_in = omega arith;
  tail_in = omega arith;
  end = at_tail;
  ids = 0 ∷ [];
  ready = (λ e. omega (arith, e), refl, 512, refl, refl);
  here = inl refl;
}

write-Answers : Answers take_all post_second no_yield 1 op_write empty_rings 3 4096 512 0
unfolding iouring_setup iouring_check check_loop
write-Answers = record {
  head_in = omega arith;
  tail_in = omega arith;
  end = at_tail;
  ids = 0 ∷ [];
  ready = (λ e. omega (arith, e), refl, 512, refl, refl);
  here = inl refl;
}

not_full : succ empty_rings.sq_tail ≢ empty_rings.sq_head
unfolding iouring_setup
not_full e = omega (arith, e)

io_uring_read-answered_example :
    ((t : Submitter) × (io_uring_read take_all post_second no_yield 2 empty_rings 3 4096 512 0
        ≡ some (empty_rings.sq_tail % empty_rings.sq_entries, t))
      × (t.done_flag (empty_rings.sq_tail % empty_rings.sq_entries) ≢ 0))
    × ((t : Submitter) × (io_uring_write take_all post_second no_yield 2 empty_rings 3 4096 512 0
          ≡ some (empty_rings.sq_tail % empty_rings.sq_entries, t))
        × (t.done_flag (empty_rings.sq_tail % empty_rings.sq_entries) ≢ 0))
io_uring_read-answered_example =
    io_uring_read-answered take_all post_second no_yield empty_rings 3 4096 512 0 1 2 not_full
      (omega arith) read-Answers write-Answers
