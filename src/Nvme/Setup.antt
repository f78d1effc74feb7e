-- ===== src/Nvme/Setup.antt =====
-- `__nvme_init` of mylib/nvme.cc: the registers of the controller, the admin queue pair and the
-- commands that create the other ones. `drive k` is what the drive does before the `k`-th poll of a
-- wait, `pa` are physical addresses, and `csts k` is what the `k`-th read of the status register finds.
use staut.Prelude.{
  ℕ, zero, suc, ◌+◌, ◌-◌, ◌*◌, ◌^◌, Option, none, some, List, [], ◌∷◌, ◌++◌, ◌==◌, if◌then◌else◌,
  ◌>>=◌, ◌>>◌, assert, update,
}
use staut.Nvme.Qp.{Qp, Sqe, Region, buffer, cq_of, sq_of, new_qp, new_sqe, check_cq, is_done}

-- The loop of `req_and_wait`. `none` means that the command is not done.
unfoldable pub await_done : ℕ → (ℕ → Qp → Qp) → ℕ → Qp → ℕ → Option Qp
await_done zero drive k q cid = none
await_done (suc fuel) drive k q cid =
    let t = check_cq (drive k q) in
    let rest = await_done fuel drive (k + 1) t cid in if is_done t cid then some t else rest

-- `req_and_wait`
unfoldable pub req_and_wait : ℕ → (ℕ → Qp → Qp) → Qp → ℕ → Option Qp
req_and_wait fuel drive q cid = await_done fuel drive 0 (record q { sq_doorbell = q.sq_tail }) cid

-- A command of the admin queue pair: `fill` sets its fields. The command goes with the answer.
unfoldable pub admin : ℕ → (ℕ → Qp → Qp) → (ℕ → Sqe → Sqe) → Qp → Option (Sqe × Qp)
admin fuel drive fill q = new_sqe fuel drive q >>= λ r.
    let cid = r.0 in
    let t = r.1 in
    let c = fill cid (t.sqes cid) in
    req_and_wait fuel drive (record t { sqes = update t.sqes cid c }) cid >>= λ u. some (c, u)

-- Create CQ and create SQ, for a queue pair of `n` entries. The two halves of CDW10 and of CDW11 do
-- not overlap, since a queue number is below 2^16.
unfoldable pub create_cq : ℕ → ℕ → ℕ → Sqe → Sqe
create_cq n qid cid e = record e {
  opc = 0x5;
  prp1 = cq_of qid;
  nsid = 0;
  cdw10 = (n - 1) * 2 ^ 16 + qid;
  cdw11 = 1;
}

unfoldable pub create_sq : ℕ → ℕ → ℕ → Sqe → Sqe
create_sq n qid cid e = record e {
  opc = 0x1;
  prp1 = sq_of qid;
  nsid = 0;
  cdw10 = (n - 1) * 2 ^ 16 + qid;
  cdw11 = qid * 2 ^ 16 + 1;
}

unfoldable pub identify : ℕ → Sqe → Sqe
identify cid e = record e { opc = 0x6; nsid = 0xffffffff; cdw10 = 0x1; prp1 = buffer cid }

-- `qps[did]`, what was stored to the registers (their offsets and values), and the commands of the
-- admin queue pair.
pub record Setup : Type 0 where
  pub qps : ℕ → Option Qp
  pub regs : List (ℕ × ℕ)
  pub submitted : List Sqe

-- `while (csts != 1)`, from the `k`-th read on.
unfoldable pub await_ready : ℕ → (ℕ → ℕ) → ℕ → Option (Unit {0})
await_ready zero csts k = none
await_ready (suc fuel) csts k =
    let rest = await_ready fuel csts (k + 1) in if csts k == 1 then some tt else rest

unfoldable pub store : ℕ → ℕ → Setup → Setup
store offset v s = record s { regs = s.regs ++ (offset, v) ∷ [] }

module _ (fuel : ℕ) (drive : ℕ → Qp → Qp) where
  -- A command of `qps[did][0]`.
  unfoldable pub command : (ℕ → Sqe → Sqe) → Setup → Option Setup
  command fill s = s.qps 0 >>= λ q. admin fuel drive fill q >>= λ r.
      some (record s { qps = update s.qps 0 (some (r.1)); submitted = s.submitted ++ r.0 ∷ [] })

  -- `create_qp`
  unfoldable pub create_qp : ℕ → Setup → Option Setup
  create_qp qid s = s.qps qid >>= λ q.
      command (create_cq q.n_sqe qid) s >>= λ t. command (create_sq q.n_sqe qid) t

  module _ (rbuf : ℕ → ℕ → Option ℕ) (len : ℕ → ℕ → ℕ) where
    -- The loop over `iq`.
    unfoldable pub create_qps : ℕ → ℕ → Setup → Option Setup
    create_qps zero iq s = some s
    create_qps (suc count) iq s =
        create_qp iq (record s { qps = update s.qps iq (some (new_qp iq (rbuf iq) (len iq))) })
        >>= λ t. create_qps count (iq + 1) t

    -- `__nvme_init`, behind the mapping of the registers. NQ is `n_core + 1`.
    unfoldable pub init_drive : (Region → ℕ) → (ℕ → ℕ) → ℕ → Setup → Option Setup
    init_drive pa csts n_core s =
        let disabled = store 0x14 0 s in
        assert (csts 0 == 0)
        >> (let adq = new_qp 0 (rbuf 0) (len 0) in
            let made = record disabled { qps = update disabled.qps 0 (some adq) } in
            let n = adq.n_sqe - 1 in
            let queues =
              store 0x24 (n * 2 ^ 16 + n)
                (store 0x28 (pa (sq_of 0)) (store 0x30 (pa (cq_of 0)) made)) in
            let enabled = store 0x14 0x460001 queues in
            await_ready fuel csts 1 >> (command identify enabled >>= λ t. create_qps n_core 1 t))
