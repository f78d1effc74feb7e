-- ===== src/Nvme/Device.antt =====
-- A queue pair of mylib/nvme.cc and the drive behind it. The drive fetches commands in any order and
-- between any two steps of the driver; it writes completions as the interface of NVMe says, one after
-- the other, with a phase that changes at each lap. What it stores is a parameter.
use staut.Prelude.{
  ℕ, ◌^◌, ◌+◌, ◌*◌, ◌≤◌, ◌<◌, ◌≡◌, Option, none, some, List, [], ◌∷◌, ◌++◌, ◌==◌, if◌then◌else◌,
  update, take, length,
}
use staut.Nvme.Address.{stripe_lba}
use staut.Nvme.Qp.{
  Qp, Sqe, Region, nowhere, buffer, cq_of, sq_of, Copy, overlay, next_head, next_phase, new_qp,
  new_sqe, issue_read, issue_write, check_cq,
}

-- A request of `nvme_read_req`, with its arguments, or of `nvme_write_req`, with the blocks to be written.
pub data Ask : Type 0 where
  reads : (lba num_blk len buf : ℕ) → Ask
  writes : (lba num_blk : ℕ) → List ℕ → Ask

-- The blocks that are written: the caller's bytes, and behind them what the buffer of the command held.
abbrev pub sent : ℕ → List ℕ → List ℕ → List ℕ
sent num_blk bytes old = take (512 * num_blk) (overlay bytes old)

-- What the requests mean: what the drive stores, and what was delivered to the callers' buffers.
pub record Spec (D : Type 0) : Type 0 where
  pub disk : D
  pub delivered : List Copy

-- `flight` has the commands that the drive has not executed. The drive posts the next completion at
-- `cq_tail`, with `phase`. `spec` is the meaning of the requests executed so far.
pub record System (D : Type 0) : Type 0 where
  pub qp : Qp
  pub flight : ℕ → Option Ask
  pub cq_tail : ℕ
  pub phase : ℕ
  pub disk : D
  pub spec : Spec D

-- A queue pair that the constructor made, before the first request.
abbrev pub initial : ℕ → (ℕ → Option ℕ) → (ℕ → ℕ) → {D : Type 0} → D → System D
initial qid rbuf len disk = record {
  qp = new_qp qid rbuf len;
  flight = λ _. none;
  cq_tail = 0;
  phase = 1;
  disk = disk;
  spec = record { disk = disk; delivered = [] };
}

module _ (nd : ℕ) {D : Type 0} (drive_read : D → ℕ → ℕ → List ℕ)
    (drive_write : D → ℕ → ℕ → List ℕ → D) where
  abbrev pub serve : Spec D → Ask → Spec D
  serve s (reads lba num_blk len buf) = record s {
    delivered =
        s.delivered
        ++ record { dst = buf; bytes = take len (drive_read s.disk (stripe_lba nd lba) num_blk) }
          ∷ [];
  }
  serve s (writes lba num_blk bytes) = record s {
    disk = drive_write s.disk (stripe_lba nd lba) num_blk bytes;
  }

  -- The drive executes command `e`, from or to the bounce buffer that PRP1 points at.
  abbrev pub transfer : System D → Sqe → Region → System D
  transfer s e (buffer b) =
      if e.opc == 2
      then record s {
        qp = record s.qp {
          buf4k =
              update s.qp.buf4k b
                (overlay (drive_read s.disk e.cdw10 (e.cdw12 + 1)) (s.qp.buf4k b));
        };
      }
      else record s {
        disk = drive_write s.disk e.cdw10 (e.cdw12 + 1) (take (512 * (e.cdw12 + 1)) (s.qp.buf4k b));
      }
  transfer s e nowhere = s
  transfer s e (cq_of qid) = s
  transfer s e (sq_of qid) = s

  abbrev pub transferred : System D → ℕ → System D
  transferred s cid = transfer s (s.qp.sqes cid) (s.qp.sqes cid).prp1

  -- It posts the completion.
  abbrev pub posted : System D → ℕ → System D
  posted s cid = record s {
    qp = record s.qp { cqes = update s.qp.cqes s.cq_tail (record { cid = cid; phase = s.phase }) };
    flight = update s.flight cid none;
    cq_tail = next_head s.qp.n_sqe s.cq_tail;
    phase = next_phase s.qp.n_sqe s.cq_tail s.phase;
  }

  abbrev pub executed : System D → ℕ → Ask → System D
  executed s cid a = record (posted (transferred s cid) cid) { spec = serve s.spec a }

  -- A request of the driver for at most the eight blocks of its buffer at an address below 2 ^ 32, a poll (`nvme_check` polls, and so does `new_sqe` for each round of its
  -- wait, behind which the command at the tail is free), and a command executed by the drive.
  pub data Step (s t : System D) : Type 0 where
    read_req :
        (lba num_blk len buf cid : ℕ) (q : Qp)
        → new_sqe 0 (λ _ r. r) s.qp ≡ some (cid, q)
        → lba < 2 ^ 32
        → 0 < num_blk
        → num_blk ≤ 8
        → len ≤ 512 * num_blk
        → t ≡ record s {
          qp = issue_read nd q cid lba num_blk len buf;
          flight = update s.flight cid (some (reads lba num_blk len buf));
        }
        → Step s t
    write_req :
        (lba num_blk : ℕ) (bytes : List ℕ) (cid : ℕ) (q : Qp)
        → new_sqe 0 (λ _ r. r) s.qp ≡ some (cid, q)
        → lba < 2 ^ 32
        → 0 < num_blk
        → num_blk ≤ 8
        → length bytes ≤ 512 * num_blk
        → t ≡ record s {
          qp = issue_write nd q cid lba num_blk bytes;
          flight =
              update s.flight cid (some (writes lba num_blk (sent num_blk bytes (s.qp.buf4k cid))));
        }
        → Step s t
    poll : t ≡ record s { qp = check_cq s.qp } → Step s t
    execute : (cid : ℕ) (a : Ask) → s.flight cid ≡ some a → t ≡ executed s cid a → Step s t

  -- What steps lead to.
  pub data Reach (qid : ℕ) (rbuf : ℕ → Option ℕ) (len : ℕ → ℕ) (disk : D) : System D → Type 0 where
    start : Reach qid rbuf len disk (initial qid rbuf len disk)
    next : {s t : System D} → Reach qid rbuf len disk s → Step s t → Reach qid rbuf len disk t
