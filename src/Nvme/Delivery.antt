-- ===== src/Nvme/Delivery.antt =====
-- The queue pair of mylib/nvme.cc and its drive stay consistent over all steps, and what the requests
-- deliver.
use mathlib.Core.List.{append-nil}
use staut.Prelude.{
  ℕ, ◌+◌, ◌-◌, ◌*◌, ◌<◌, ◌≡◌, refl, sym, arith, ap, ◌≢◌, Option, none, some, List, [], ◌∷◌, ◌++◌,
  ◌==◌, if◌then◌else◌, length, take, update, update_self, update_ne, ◌↔◌, Option-cases, inl, inr,
  if_both,
}
use staut.Nvme.Address.{qd, drive_lba, drive_lba_small}
use staut.Nvme.Qp.{aqd, buffer, Copy, overlay, new_qp, check_cq}
use staut.Nvme.Lists.{take-overlay}
use staut.Nvme.Requests.{new_sqe-free, asked-IsValid, completed, completed-IsValid}
use staut.Nvme.Consistent.{IsValid, poll-IsValid}
use staut.Nvme.Window.{lap, slot_zero, lap_zero}
use staut.Nvme.Device.{
  Ask, reads, writes, System, serve, executed, Step, read_req, write_req, poll, execute, Reach,
  start, next, initial, sent,
}

module _ (nd : ℕ) {D : Type 0} (drive_read : D → ℕ → ℕ → List ℕ)
    (drive_write : D → ℕ → ℕ → List ℕ → D)
    (length_read : (d : D) (a k : ℕ) → length (drive_read d a k) ≡ 512 * k) where
  execute-IsValid :
      (s : System D) (cs : List ℕ) (cid : ℕ) (a : Ask)
      → IsValid nd s cs
      → s.flight cid ≡ some a
      → IsValid nd (executed nd drive_read drive_write s cid a) (cs ++ cid ∷ [])
  execute-IsValid s cs cid (reads lba num_blk len buf) v f =
      let (o, e, k, r, l, b) = (v.flying cid _ f).2 in
      let c = s.qp.sqes cid in
      let got = drive_read s.disk c.cdw10 (c.cdw12 + 1) in
      let same : executed nd drive_read drive_write s cid (reads lba num_blk len buf)
          ≡ completed s cid (update s.qp.buf4k cid (overlay got (s.qp.buf4k cid))) s.disk
              (serve nd drive_read drive_write s.spec (reads lba num_blk len buf)) =
        rw (v.own cid _ f, o) refl in
      rw same (
        completed-IsValid nd s cs cid _ v f _ s.disk _
          (λ i p. update_ne s.qp.buf4k cid _ i (λ q. p (sym q))) v.stored
          (rw (r, l, update_self s.qp.buf4k cid)
            (ap (λ x. s.spec.delivered ++ record { dst = buf; bytes = x } ∷ [])
              (rw (← v.stored, ← e, ← k)
                (sym (
                  take-overlay len got (s.qp.buf4k cid)
                    (omega (arith, length_read s.disk c.cdw10 (c.cdw12 + 1), b, k))))))))
  execute-IsValid s cs cid (writes lba num_blk bytes) v f =
      let (o, e, k, r, b) = (v.flying cid _ f).2 in
      let c = s.qp.sqes cid in
      let same : executed nd drive_read drive_write s cid (writes lba num_blk bytes)
          ≡ completed s cid s.qp.buf4k
              (drive_write s.disk c.cdw10 (c.cdw12 + 1)
                (take (512 * (c.cdw12 + 1)) (s.qp.buf4k cid)))
              (serve nd drive_read drive_write s.spec (writes lba num_blk bytes)) =
        rw (v.own cid _ f, o) refl in
      rw same (
        completed-IsValid nd s cs cid _ v f s.qp.buf4k _ _ (λ i p. refl)
          (rw (e, k, b, v.stored) refl) (rw r (sym (append-nil s.spec.delivered))))

  Step-IsValid :
      (s t : System D) (cs : List ℕ)
      → IsValid nd s cs
      → Step nd drive_read drive_write s t
      → (ds : List ℕ) × IsValid nd t ds
  Step-IsValid s t cs v (read_req lba num_blk len buf cid q e small p _ l g) =
      let (free, c, r) = new_sqe-free s.qp q cid e in
      (
        cs,
        rw (g, c, r)
            (asked-IsValid nd s cs v free
              (record (s.qp.sqes s.qp.sq_tail) {
                prp1 = buffer s.qp.sq_tail;
                opc = 2;
                cdw10 = drive_lba nd lba;
                cdw12 = num_blk - 1;
              })
              (some buf) len s.qp.buf4k _ (reads lba num_blk len buf) (λ i p. refl)
              (refl, drive_lba_small nd lba small, omega arith, refl, refl, l) refl),
      )
  Step-IsValid s t cs v (write_req lba num_blk bytes cid q e small p _ l g) =
      let (free, c, r) = new_sqe-free s.qp q cid e in
      let old = s.qp.buf4k s.qp.sq_tail in
      (
        cs,
        rw (g, c, r)
            (asked-IsValid nd s cs v free
              (record (s.qp.sqes s.qp.sq_tail) {
                prp1 = buffer s.qp.sq_tail;
                opc = 1;
                cdw10 = drive_lba nd lba;
                cdw12 = num_blk - 1;
              })
              none 0 (update s.qp.buf4k s.qp.sq_tail (overlay bytes old)) _
              (writes lba num_blk (sent num_blk bytes old))
              (λ i p. update_ne s.qp.buf4k s.qp.sq_tail _ i (λ q. p (sym q)))
              (
                refl,
                drive_lba_small nd lba small,
                omega arith,
                refl,
                rw (update_self s.qp.buf4k s.qp.sq_tail) refl,
              )
              refl),
      )
  Step-IsValid s t cs v (poll e) = ([], rw e (poll-IsValid nd s cs v).0)
  Step-IsValid s t cs v (execute cid a f e) =
      (cs ++ cid ∷ [], rw e (execute-IsValid s cs cid a v f))

  module _ (qid : ℕ) (rbuf : ℕ → Option ℕ) (len : ℕ → ℕ) (disk : D) where
    none-some : {x : Ask} → none ≡ some x → ⊥
    none-some e = cc

    Reach-IsValid :
        {s : System D}
        → Reach nd drive_read drive_write qid rbuf len disk s
        → (cs : List ℕ) × IsValid nd s cs
    unfolding new_qp
    Reach-IsValid start = ([], first)
      where
        n : ℕ
        n = if qid == 0 then aqd else qd

        room : 0 < n
        room = if_both (λ k. 0 < k) (qid == 0) (omega arith) (omega arith)

        old : (k : ℕ) → k < n → 0 ≢ lap n 0 1 k
        old k h = ground arith

        first : IsValid nd (initial qid rbuf len disk) []
        first = record {
          tail_in = room;
          head_in = room;
          bit = omega arith;
          window = old;
          at_tail = sym (slot_zero n 0 1 room (omega arith));
          at_phase = sym (lap_zero n 0 1 room (omega arith));
          distinct = tt;
          waiting = tt;
          flying = λ i a f. absurd (none-some f);
          own = λ i a f. absurd (none-some f);
          busy = λ i z f w. absurd (omega (arith, z));
          stored = refl;
          logged = refl;
        }
    Reach-IsValid (next {s} {t} r st) = let (cs, v) = Reach-IsValid r in Step-IsValid s t cs v st

    -- Take any run of requests, polls and commands executed by the drive, in any order, from a queue
    -- pair that the constructor made, where every request is for an address below 2 ^ 32 and for one to
    -- eight blocks, with no more bytes than these hold, and the drive returns whole blocks. A poll then leaves in the callers' buffers exactly the reads that the drive has executed,
    -- in that order, each in the buffer of the request that asked for it and with what the drive stored
    -- then at the request's address; the drive stores what the writes it executed
    -- say, whose last block ends with what the buffer of the command held if the caller gave less. Before the poll
    -- the copies are a prefix of these.
    pub check_cq-delivered :
        (s : System D)
        → Reach nd drive_read drive_write qid rbuf len disk s
        → ((check_cq s.qp).copies ≡ s.spec.delivered)
          × (s.disk ≡ s.spec.disk)
          × (rest : List Copy) × (s.spec.delivered ≡ s.qp.copies ++ rest)
    check_cq-delivered s r =
        let (cs, v) = Reach-IsValid r in ((poll-IsValid nd s cs v).1, v.stored, _, v.logged)

    -- Take any run of requests, polls and commands executed by the drive, in any order, from a queue
    -- pair that the constructor made, where every request is for an address below 2 ^ 32 and for one to
    -- eight blocks, with no more bytes than these hold, and the drive returns whole blocks. Behind a poll a command is in flight exactly if it holds a request that the drive has not
    -- executed.
    pub check_cq-executed :
        (s : System D)
        → Reach nd drive_read drive_write qid rbuf len disk s
        → (cid : ℕ) → ((check_cq s.qp).done_flag cid ≡ 0) ↔ ((a : Ask) × (s.flight cid ≡ some a))
    check_cq-executed s r cid =
        let (cs, v) = Reach-IsValid r in
        let w = (poll-IsValid nd s cs v).0 in
        (
          λ z. elim (Option-cases (s.flight cid)) [
            | inl f ↦ absurd (w.busy cid z f tt)
            | inr f ↦ f
          ],
          λ f. (w.flying cid f.0 f.1).1,
        )
