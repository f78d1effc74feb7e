-- ===== src/Nvme/Qp.antt =====
-- The queue pair of mylib/nvme.cc: class QP, `nvme_read_req`, `nvme_write_req` and `nvme_check`. The
-- drive is an environment that writes completion entries between polls.
use staut.Prelude.{
  ℕ, zero, suc, ◌+◌, ◌-◌, ◌%◌, Bool, true, false, Option, none, some, List, [], ◌∷◌, ◌++◌, ◌==◌,
  if◌then◌else◌, ◌>>=◌, update, take, assert, ◌>>◌, leb, length, ◌&&◌,
}
use staut.Nvme.Address.{qd, drive_of, drive_lba, make_rid, split_rid}

-- CID and the phase bit of `cqe_t`.
pub record Cqe : Type 0 where
  pub cid : ℕ
  pub phase : ℕ

-- What the physical address of PRP1 points at: the bounce buffer of a command, `cq_pa` or `sq_pa` of a
-- queue pair.
pub data Region : Type 0 where
  nowhere : Region
  buffer : ℕ → Region
  cq_of : ℕ → Region
  sq_of : ℕ → Region

-- The fields of `sqe_t` that a request sets.
pub record Sqe : Type 0 where
  pub opc : ℕ
  pub nsid : ℕ
  pub prp1 : Region
  pub cdw10 : ℕ
  pub cdw11 : ℕ
  pub cdw12 : ℕ

-- A `memcpy` to the caller's buffer.
pub record Copy : Type 0 where
  pub dst : ℕ
  pub bytes : List ℕ

-- Class QP: `done_flag` is 2 for a command that was never used, 0 in flight, 1 done. `rbuf` is NULL
-- for a write. `buf4k` is what the bounce buffers hold, and `copies` what was copied to callers.
pub record Qp : Type 0 where
  pub n_sqe : ℕ
  pub sq_tail : ℕ
  pub cq_head : ℕ
  pub cq_phase : ℕ
  pub done_flag : ℕ → ℕ
  pub rbuf : ℕ → Option ℕ
  pub len : ℕ → ℕ
  pub sqes : ℕ → Sqe
  pub cqes : ℕ → Cqe
  pub buf4k : ℕ → List ℕ
  pub copies : List Copy
  pub sq_doorbell : ℕ
  pub cq_doorbell : ℕ

-- AQD
abbrev pub aqd : ℕ
aqd = 8

-- `QP(qid, regs32)`: the pages of the queues and the buffers are cleared. `rbuf` and `len` are not
-- set.
unfoldable pub new_qp : ℕ → (ℕ → Option ℕ) → (ℕ → ℕ) → Qp
new_qp qid rbuf len = record {
  n_sqe = if qid == 0 then aqd else qd;
  sq_tail = 0;
  cq_head = 0;
  cq_phase = 1;
  done_flag = λ _. 2;
  rbuf = rbuf;
  len = len;
  sqes = λ _. record { opc = 0; nsid = 1; prp1 = nowhere; cdw10 = 0; cdw11 = 0; cdw12 = 0 };
  cqes = λ _. record { cid = 0; phase = 0 };
  buf4k = λ _. repeat 4096;
  copies = [];
  sq_doorbell = 0;
  cq_doorbell = 0;
}
  where
    repeat : ℕ → List ℕ
    repeat zero = []
    repeat (suc n) = 0 ∷ repeat n

-- The head and the phase behind `cq_head++`.
abbrev pub next_head : ℕ → ℕ → ℕ
next_head n head = if head + 1 == n then 0 else head + 1

abbrev pub next_phase : ℕ → ℕ → ℕ → ℕ
next_phase n head phase = if head + 1 == n then 1 - phase else phase

-- What the loop of `check_cq` does for command `cid`.
unfoldable pub complete : Qp → ℕ → Qp
complete q cid = record q {
  copies = elim (q.rbuf cid) [
    | none ↦ q.copies
    | some p ↦ q.copies ++ record { dst = p; bytes = take (q.len cid) (q.buf4k cid) } ∷ []
  ];
  done_flag = update q.done_flag cid 1;
}

-- A round of the loop: the entry at the head.
unfoldable pub consume : Qp → Qp
unfolding complete
consume q = record (complete q (q.cqes q.cq_head).cid) {
  cq_head = next_head q.n_sqe q.cq_head;
  cq_phase = next_phase q.n_sqe q.cq_head q.cq_phase;
}

-- `cqe->SF.P == cq_phase`
abbrev pub has_entry : Qp → Bool
has_entry q = (q.cqes q.cq_head).phase == q.cq_phase

-- The loop: it goes on while the entry at the head has the current phase.
unfoldable pub poll : ℕ → Qp → Qp
unfolding consume
poll zero q = q
poll (suc fuel) q = elim (has_entry q) [ true ↦ poll fuel (consume q) | false ↦ q ]

-- `check_cq`: the doorbell is written if there was an entry. A queue of n entries is through after at
-- most n rounds.
unfoldable pub check_cq : Qp → Qp
unfolding poll
check_cq q = if has_entry q then ring (poll (q.n_sqe + 1) q) else q
  where
    ring : Qp → Qp
    ring t = record t { cq_doorbell = t.cq_head }

-- The loop of `new_sqe`: while the command at the tail is in flight the queue is polled; `drive k` is
-- what the drive does before the `k`-th poll. `none` means that it is still in flight.
unfoldable pub await_slot : ℕ → (ℕ → Qp → Qp) → ℕ → Qp → Option Qp
await_slot zero drive k q = if q.done_flag q.sq_tail == 0 then none else some q
await_slot (suc fuel) drive k q = elim (q.done_flag q.sq_tail == 0) [
  | true ↦ await_slot fuel drive (k + 1) (check_cq (drive k q))
  | false ↦ some q
]

-- `new_sqe`: the command at the tail.
unfoldable pub new_sqe : ℕ → (ℕ → Qp → Qp) → Qp → Option (ℕ × Qp)
unfolding await_slot
new_sqe fuel drive q = await_slot fuel drive 0 q >>= λ t. some (
  t.sq_tail,
  record t { done_flag = update t.done_flag t.sq_tail 0; sq_tail = (t.sq_tail + 1) % t.n_sqe },
)

-- `memcpy(buf, bytes, length bytes)`, as the contents of `buf` behind it.
abbrev pub overlay : List ℕ → List ℕ → List ℕ
overlay [] old = old
overlay (b ∷ bytes) [] = b ∷ bytes
overlay (b ∷ bytes) (_ ∷ old) = b ∷ overlay bytes old

-- What `nvme_read_req` puts into command `cid`, and the doorbell, for at most the eight blocks of its buffer.
abbrev pub issue_read : ℕ → Qp → ℕ → ℕ → ℕ → ℕ → ℕ → Qp
issue_read nd q cid lba num_blk len buf = record q {
  sqes = update q.sqes cid (record (q.sqes cid) {
    prp1 = buffer cid;
    opc = 0x2;
    cdw10 = drive_lba nd lba;
    cdw12 = num_blk - 1;
  });
  rbuf = update q.rbuf cid (some buf);
  len = update q.len cid len;
  sq_doorbell = q.sq_tail;
}

-- What `nvme_write_req` puts into command `cid` and its buffer, and the doorbell, for at most the eight
-- blocks and 4096 bytes of the buffer.
abbrev pub issue_write : ℕ → Qp → ℕ → ℕ → ℕ → List ℕ → Qp
issue_write nd q cid lba num_blk bytes = record q {
  buf4k = update q.buf4k cid (overlay bytes (q.buf4k cid));
  sqes = update q.sqes cid (record (q.sqes cid) {
    prp1 = buffer cid;
    opc = 0x1;
    cdw10 = drive_lba nd lba;
    cdw12 = num_blk - 1;
  });
  rbuf = update q.rbuf cid none;
  len = update q.len cid 0;
  sq_doorbell = q.sq_tail;
}

-- The queue pairs by drive and queue number.
abbrev pub Drives : Type 0
Drives = ℕ → ℕ → Qp

abbrev pub set_qp : Drives → ℕ → ℕ → Qp → Drives
set_qp d did qid q = update d did (update (d did) qid q)

module _ (nd n_core fuel : ℕ) (drive : ℕ → Qp → Qp) where
  -- `nvme_read_req`. More blocks or bytes than the buffer of a command holds would reach into others: `none`.
  unfoldable pub read_req : Drives → ℕ → ℕ → ℕ → ℕ → ℕ → Option (ℕ × Drives)
  read_req d lba num_blk core_id len buf =
      let did = drive_of nd lba in
      let qid = core_id + 1 in
      assert (leb num_blk 8 && leb len 4096) >> new_sqe fuel drive (d did qid) >>= λ r.
      let cid = r.0 in
      let q = r.1 in
      some (
        make_rid n_core did core_id cid,
        set_qp d did qid (issue_read nd q cid lba num_blk len buf),
      )

  -- `nvme_write_req`: `bytes` is what the buffer holds; `none` as above.
  unfoldable pub write_req : Drives → ℕ → ℕ → ℕ → List ℕ → Option (ℕ × Drives)
  write_req d lba num_blk core_id bytes =
      let did = drive_of nd lba in
      let qid = core_id + 1 in
      assert (leb num_blk 8 && leb (length bytes) 4096) >> new_sqe fuel drive (d did qid) >>= λ r.
      let cid = r.0 in
      let q = r.1 in
      some
        (make_rid n_core did core_id cid, set_qp d did qid (issue_write nd q cid lba num_blk bytes))

-- `done`
abbrev pub is_done : Qp → ℕ → Bool
is_done q cid = q.done_flag cid == 1

-- `nvme_check`
unfoldable pub check : ℕ → Drives → ℕ → Bool × Drives
check n_core d rid =
    let r = split_rid n_core rid in
    let q = d r.did r.qid in
    if is_done q r.cid
    then (true, d)
    else (is_done (check_cq q) r.cid, set_qp d r.did r.qid (check_cq q))
