-- ===== src/Nvme/Created.antt =====
-- What `__nvme_init` of mylib/nvme.cc tells the controller, and what it leaves in `qps`.
use mathlib.Core.List.{append_assoc, append-nil}
use staut.Prelude.{
  ℕ, zero, suc, ◌+◌, ◌*◌, ◌^◌, ◌≤◌, ◌<◌, ◌≡◌, refl, sym, ap, ap₂, subst, ◌∙◌, ◌≢◌, arith, Option,
  none, some, List, [], ◌∷◌, ◌++◌, ◌==◌, update, update_self, update_ne, ==-false, ℕ_discrete,
  if_both,
}
use staut.Nvme.Address.{qd}
use staut.Nvme.Qp.{Qp, Sqe, Region, buffer, cq_of, sq_of, new_qp}
use staut.Nvme.Setup.{
  create_cq, create_sq, identify, Setup, command, create_qp, create_qps, await_ready, store,
  init_drive,
}
use staut.Nvme.Admin.{answers, IsIdle, new_qp-IsIdle, admin-answers}

-- The commands that create the completion queue and the submission queue of `qid`.
abbrev pub cq_creation : ℕ → Sqe
cq_creation qid = record {
  opc = 5;
  nsid = 0;
  prp1 = cq_of qid;
  cdw10 = 1023 * 2 ^ 16 + qid;
  cdw11 = 1;
  cdw12 = 0;
}

abbrev pub sq_creation : ℕ → Sqe
sq_creation qid = record {
  opc = 1;
  nsid = 0;
  prp1 = sq_of qid;
  cdw10 = 1023 * 2 ^ 16 + qid;
  cdw11 = qid * 2 ^ 16 + 1;
  cdw12 = 0;
}

-- Those of `count` queue pairs from `qid` on.
abbrev pub creations : ℕ → ℕ → List Sqe
creations zero qid = []
creations (suc count) qid = cq_creation qid ∷ sq_creation qid ∷ creations count (qid + 1)

abbrev pub identification : Sqe
identification = record {
  opc = 6;
  nsid = 0xffffffff;
  prp1 = buffer 0;
  cdw10 = 1;
  cdw11 = 0;
  cdw12 = 0;
}

-- `t` is `s` behind the commands `cs` of the admin queue pair, which is idle again.
record Commanded (s t : Setup) (cs : List Sqe) : Type 0 where
  adq : Qp
  at_zero : t.qps 0 ≡ some adq
  idle : IsIdle adq
  regs : t.regs ≡ s.regs
  submitted : t.submitted ≡ s.submitted ++ cs
  others : (i : ℕ) → i ≢ 0 → t.qps i ≡ s.qps i

Commanded-trans :
    (s t u : Setup) (cs ds : List Sqe)
    → Commanded s t cs
    → Commanded t u ds
    → Commanded s u (cs ++ ds)
Commanded-trans s t u cs ds v w = record {
  adq = w.adq;
  at_zero = w.at_zero;
  idle = w.idle;
  regs = w.regs ∙ v.regs;
  submitted = w.submitted ∙ ap (λ l. l ++ ds) v.submitted ∙ append_assoc s.submitted cs ds;
  others = λ i h. w.others i h ∙ v.others i h;
}

create_cq_lem :
    (n qid cid : ℕ) (e : Sqe) → n ≡ qd → e.cdw12 ≡ 0 → create_cq n qid cid e ≡ cq_creation qid
unfolding create_cq
create_cq_lem n qid cid e h z = rw (h, z) refl

create_sq_lem :
    (n qid cid : ℕ) (e : Sqe) → n ≡ qd → e.cdw12 ≡ 0 → create_sq n qid cid e ≡ sq_creation qid
unfolding create_sq
create_sq_lem n qid cid e h z = rw (h, z) refl

await_ready-tt :
    (fuel k r : ℕ) (csts : ℕ → ℕ) → csts (k + r) ≡ 1 → r < fuel → await_ready fuel csts k ≡ some tt
unfolding await_ready
await_ready-tt zero k r csts h l = absurd (omega arith)
await_ready-tt (suc fuel) k zero csts h l =
    let first : csts k ≡ 1 = ap csts {x = k} {y = k + 0} (omega arith) ∙ h in rw first refl
await_ready-tt (suc fuel) k (suc r) csts h l =
    if_both (λ o. o ≡ some tt) (csts k == 1) refl
      (await_ready-tt fuel (k + 1) r csts
        (ap csts {x = k + 1 + r} {y = k + suc r} (omega arith) ∙ h) (omega arith))

module _ (wait fuel : ℕ) (enough : wait < fuel) where
  command-Commanded :
      (fill : ℕ → Sqe → Sqe) (s : Setup) (q : Qp)
      → s.qps 0 ≡ some q
      → IsIdle q
      → ((cid : ℕ) (e : Sqe) → (fill cid e).cdw12 ≡ e.cdw12)
      → (t : Setup) × (command fuel (answers wait) fill s ≡ some t)
        × Commanded s t (fill q.sq_tail (q.sqes q.sq_tail) ∷ [])
  unfolding command
  command-Commanded fill s q z v same =
      let (t, e, i) = admin-answers wait fuel fill q enough v same in
      (
        record s {
          qps = update s.qps 0 (some t);
          submitted = s.submitted ++ fill q.sq_tail (q.sqes q.sq_tail) ∷ [];
        },
        rw (z, e) refl,
        record {
          adq = t;
          at_zero = update_self s.qps 0 (some t);
          idle = i;
          regs = refl;
          submitted = refl;
          others = λ i h. update_ne s.qps 0 (some t) i (λ e. h (sym e));
        },
      )

  create_qp-Commanded :
      (qid : ℕ) (s : Setup) (q p : Qp)
      → qid ≢ 0
      → s.qps 0 ≡ some q
      → IsIdle q
      → s.qps qid ≡ some p
      → p.n_sqe ≡ qd
      → (t : Setup) × (create_qp fuel (answers wait) qid s ≡ some t)
        × Commanded s t (cq_creation qid ∷ sq_creation qid ∷ [])
  unfolding create_qp create_cq create_sq
  create_qp-Commanded qid s q p ne z v e n =
      let (t, f, c) = command-Commanded (create_cq p.n_sqe qid) s q z v (λ cid e. refl) in
      let (u, g, d) =
        command-Commanded (create_sq p.n_sqe qid) t c.adq c.at_zero c.idle (λ cid e. refl) in
      (
        u,
        rw (e, f, g) refl,
        subst (Commanded s u)
            (ap₂ (λ x y. x ∷ y ∷ [])
              (create_cq_lem p.n_sqe qid q.sq_tail (q.sqes q.sq_tail) n (v.blank q.sq_tail))
              (create_sq_lem p.n_sqe qid c.adq.sq_tail (c.adq.sqes c.adq.sq_tail) n
                (c.idle.blank c.adq.sq_tail)))
            (Commanded-trans s t u _ _ c d),
      )

  module _ (rbuf : ℕ → ℕ → Option ℕ) (len : ℕ → ℕ → ℕ) where
    io_size : (qid : ℕ) → qid ≢ 0 → (new_qp qid (rbuf qid) (len qid)).n_sqe ≡ qd
    unfolding new_qp
    io_size qid h = rw (==-false qid 0 h) refl

    create_qps-Commanded :
        (count iq : ℕ) (s : Setup) (q : Qp)
        → 0 < iq
        → s.qps 0 ≡ some q
        → IsIdle q
        → (t : Setup) × (create_qps fuel (answers wait) rbuf len count iq s ≡ some t)
          × (t.regs ≡ s.regs)
          × (t.submitted ≡ s.submitted ++ creations count iq)
          × ((i : ℕ) → i ≢ 0 → i < iq → t.qps i ≡ s.qps i)
          × ((i : ℕ) → iq ≤ i → i < iq + count → t.qps i ≡ some (new_qp i (rbuf i) (len i)))
    unfolding create_qps
    create_qps-Commanded zero iq s q pos z v =
        (s, refl, refl, sym (append-nil s.submitted), λ i h l. refl, λ i h l. absurd (omega arith))
    create_qps-Commanded (suc count) iq s q pos z v =
        let made = record s { qps = update s.qps iq (some (new_qp iq (rbuf iq) (len iq))) } in
        let ne : iq ≢ 0 = λ e. omega (arith, pos, e) in
        let (t, e, c) =
          create_qp-Commanded iq made q (new_qp iq (rbuf iq) (len iq)) ne
            (update_ne s.qps iq _ 0 ne ∙ z) v (update_self s.qps iq _) (io_size iq ne) in
        let (u, f, regs, sub, old, new) =
          create_qps-Commanded count (iq + 1) t c.adq (omega arith) c.at_zero c.idle in
        (
          u,
          rw (e, f) refl,
          regs ∙ c.regs,
          sub ∙ ap (λ l. l ++ creations count (iq + 1)) c.submitted ∙ append_assoc s.submitted _ _,
          λ i h l.
              old i h (omega (arith, l))
              ∙ c.others i h
              ∙ update_ne s.qps iq _ i (λ p. omega (arith, l, p)),
          λ i h l. elim (ℕ_discrete iq i) [
            | yes p ↦ rw (← p) (old iq ne (omega arith) ∙ c.others iq ne ∙ update_self s.qps iq _)
            | no p ↦ new i (omega (arith, h, p)) (omega (arith, l))
          ],
        )

    -- Where the status register reads 0 at first and 1 at a read that the fuel reaches, and the drive
    -- completes each announced command before the poll of number `wait`, which the fuel reaches too,
    -- and where the memory that the constructor gets for `rbuf` of the admin queue pair is 0, so that no
    -- completion of it is copied through a pointer that was never set, the set-up of a drive ends. It stores to the registers, in order: disable, the two addresses and
    -- the size of the admin queues, enable. Its commands are the identification and then, for each queue
    -- number from 1 to N_CORE, the creation of the completion queue before that of its submission
    -- queue. Each of these queue pairs is as the constructor made it.
    pub init_drive-created :
        (pa : Region → ℕ) (csts : ℕ → ℕ) (r n_core : ℕ)
        → csts 0 ≡ 0
        → csts (1 + r) ≡ 1
        → r < fuel
        → ((cid : ℕ) → rbuf 0 cid ≡ none)
        → (t : Setup) × (init_drive fuel
              (answers wait)
              rbuf
              len
              pa
              csts
              n_core
              (record { qps = λ _. none; regs = []; submitted = [] })
            ≡ some t)
          × (t.regs
              ≡ (0x14, 0)
                ∷ (0x30, pa (cq_of 0))
                ∷ (0x28, pa (sq_of 0))
                ∷ (0x24, 0x70007)
                ∷ (0x14, 0x460001)
                ∷ [])
          × (t.submitted ≡ identification ∷ creations n_core 1)
          × ((i : ℕ) → 0 < i → i ≤ n_core → t.qps i ≡ some (new_qp i (rbuf i) (len i)))
    unfolding init_drive store new_qp identify
    init_drive-created pa csts r n_core down up l unset =
        let (t, e, c) =
          command-Commanded identify enabled (new_qp 0 (rbuf 0) (len 0)) refl
            (new_qp-IsIdle (rbuf 0) (len 0)) (λ cid e. refl) in
        let (u, f, regs, sub, old, new) =
          create_qps-Commanded n_core 1 t c.adq (omega arith) c.at_zero c.idle in
        (
          u,
          rw (down, await_ready-tt fuel 1 r csts up l, e) f,
          regs ∙ c.regs,
          sub ∙ ap (λ l. l ++ creations n_core 1) c.submitted,
          λ i h m. new i h (omega (arith, m)),
        )
      where
        enabled : Setup
        enabled = record {
          qps = update (λ _. none) 0 (some (new_qp 0 (rbuf 0) (len 0)));
          regs =
              (0x14, 0)
              ∷ (0x30, pa (cq_of 0))
              ∷ (0x28, pa (sq_of 0))
              ∷ (0x24, 0x70007)
              ∷ (0x14, 0x460001)
              ∷ [];
          submitted = [];
        }
