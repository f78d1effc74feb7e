-- ===== src/Nvme/Requests.antt =====
-- A request of mylib/nvme.cc, and a command executed by the drive, keep the queue pair consistent.
use native.Mathlib.Nat.{mod-lt}
use mathlib.Core.List.{append_assoc}
use staut.Prelude.{
  ℕ, ◌+◌, ◌%◌, ◌<◌, ◌≡◌, refl, sym, arith, ap, ◌∙◌, ◌≢◌, Option, none, some, List, [], ◌∷◌, ◌++◌,
  length, length-append, update, update_self, update_ne, ==_iff, ==-false, ℕ_discrete,
}
use staut.Nvme.Qp.{Qp, Sqe, buffer, next_head, next_phase, new_sqe, await_slot}
use staut.Nvme.Lists.{All-snoc, All-of_snoc, Distinct-snoc, All-map}
use staut.Nvme.Polled.{delivery, deliveries, deliveries-snoc}
use staut.Nvme.Consistent.{Holds, IsWaiting, IsValid, length-flying, not_waiting, deliveries-same}
use staut.Nvme.Window.{slot, lap, Window-post, next_head-slot, next_phase-lap}
use staut.Nvme.Device.{Ask, Spec, System}

-- The queue pair behind `new_sqe` that did not wait.
abbrev pub taken : Qp → Qp
taken q = record q {
  done_flag = update q.done_flag q.sq_tail 0;
  sq_tail = (q.sq_tail + 1) % q.n_sqe;
}

pub new_sqe-free :
    (q r : Qp) (cid : ℕ)
    → new_sqe 0 (λ _ t. t) q ≡ some (cid, r)
    → (q.done_flag q.sq_tail ≢ 0) × (cid ≡ q.sq_tail) × (r ≡ taken q)
unfolding new_sqe await_slot
new_sqe-free q r cid e = elim (ℕ_discrete (q.done_flag q.sq_tail) 0) [
  | yes p ↦ absurd (none-some (rw ((==_iff (q.done_flag q.sq_tail) 0).1 p) at e))
  | no p ↦
      let f = rw (==-false (q.done_flag q.sq_tail) 0 p) at e in
      (
        p,
        ap (λ o. elim o [ none ↦ cid | some x ↦ x.0 ]) (sym f),
        ap (λ o. elim o [ none ↦ r | some x ↦ x.1 ]) (sym f),
      )
]
  where
    none-some : {x : ℕ × Qp} → none ≡ some x → ⊥
    none-some e = cc

-- A request in a free command.
abbrev pub asked : Qp → Sqe → Option ℕ → ℕ → (ℕ → List ℕ) → ℕ → Qp
asked q e dst len buf4k bell = record (taken q) {
  sqes = update q.sqes q.sq_tail e;
  rbuf = update q.rbuf q.sq_tail dst;
  len = update q.len q.sq_tail len;
  buf4k = buf4k;
  sq_doorbell = bell;
}

pub asked-IsValid :
    (nd : ℕ) {D : Type 0} (s : System D) (cs : List ℕ)
    → IsValid nd s cs
    → s.qp.done_flag s.qp.sq_tail ≢ 0
    → (e : Sqe) (dst : Option ℕ) (len : ℕ) (buf4k : ℕ → List ℕ) (bell : ℕ) (a : Ask)
    → ((i : ℕ) → i ≢ s.qp.sq_tail → buf4k i ≡ s.qp.buf4k i)
    → Holds nd e dst len (buf4k s.qp.sq_tail) a
    → e.prp1 ≡ buffer s.qp.sq_tail
    → IsValid nd
        (record s {
          qp = asked s.qp e dst len buf4k bell;
          flight = update s.flight s.qp.sq_tail (some a);
        })
        cs
asked-IsValid nd s cs v free e dst len buf4k bell a off h own = record {
  tail_in = mod-lt (s.qp.sq_tail + 1) (omega (arith, v.tail_in));
  head_in = v.head_in;
  bit = v.bit;
  window = v.window;
  at_tail = v.at_tail;
  at_phase = v.at_phase;
  distinct = v.distinct;
  waiting =
      All-map cs
        (λ c w. (
          w.0,
          update_ne s.qp.done_flag s.qp.sq_tail 0 c (other c w.1) ∙ w.1,
          update_ne s.flight s.qp.sq_tail (some a) c (other c w.1) ∙ w.2,
        ))
        v.waiting;
  flying = λ i b f. elim (ℕ_discrete s.qp.sq_tail i) [
    | yes p ↦
        let g = rw (← p, update_self s.flight s.qp.sq_tail (some a)) at f in
        let same = ap (λ o. elim o [ none ↦ a | some x ↦ x ]) g in
        rw (← p) (
          v.tail_in,
          update_self s.qp.done_flag s.qp.sq_tail 0,
          rw
              (
                update_self s.qp.sqes s.qp.sq_tail e,
                update_self s.qp.rbuf s.qp.sq_tail dst,
                update_self s.qp.len s.qp.sq_tail len,
                ← same,
              )
              h,
        )
    | no p ↦
        let w = v.flying i b (sym (update_ne s.flight s.qp.sq_tail (some a) i p) ∙ f) in
        (
          w.0,
          update_ne s.qp.done_flag s.qp.sq_tail 0 i p ∙ w.1,
          rw
              (
                update_ne s.qp.sqes s.qp.sq_tail e i p,
                update_ne s.qp.rbuf s.qp.sq_tail dst i p,
                update_ne s.qp.len s.qp.sq_tail len i p,
                off i (λ q. p (sym q)),
              )
              w.2,
        )
  ];
  own = λ i b f. elim (ℕ_discrete s.qp.sq_tail i) [
    | yes p ↦ rw (← p, update_self s.qp.sqes s.qp.sq_tail e) own
    | no p ↦
        rw (update_ne s.qp.sqes s.qp.sq_tail e i p)
          (v.own i b (sym (update_ne s.flight s.qp.sq_tail (some a) i p) ∙ f))
  ];
  busy = λ i z f w. elim (ℕ_discrete s.qp.sq_tail i) [
    | yes p ↦ none-some (sym (rw (← p) at f) ∙ update_self s.flight s.qp.sq_tail (some a))
    | no p ↦
        v.busy i (sym (update_ne s.qp.done_flag s.qp.sq_tail 0 i p) ∙ z)
          (sym (update_ne s.flight s.qp.sq_tail (some a) i p) ∙ f) w
  ];
  stored = v.stored;
  logged =
      v.logged
      ∙ ap (λ l. s.qp.copies ++ l)
          (sym (
            deliveries-same cs s.qp.rbuf _ s.qp.len _ s.qp.buf4k buf4k (
              All-map cs
                (λ c w. (
                  update_ne s.qp.rbuf s.qp.sq_tail dst c (other c w.1),
                  update_ne s.qp.len s.qp.sq_tail len c (other c w.1),
                  off c (λ q. other c w.1 (sym q)),
                ))
                v.waiting)));
}
  where
    none-some : {x : Ask} → none ≡ some x → ⊥
    none-some e = cc

    other : (c : ℕ) → s.qp.done_flag c ≡ 0 → s.qp.sq_tail ≢ c
    other c z q = free (ap s.qp.done_flag q ∙ z)

-- The drive executed command `cid`, which changed the contents of the buffer to `buf4k`.
abbrev pub completed : {D : Type 0} → System D → ℕ → (ℕ → List ℕ) → D → Spec D → System D
completed s cid buf4k disk spec = record s {
  qp = record s.qp {
    buf4k = buf4k;
    cqes = update s.qp.cqes s.cq_tail (record { cid = cid; phase = s.phase });
  };
  flight = update s.flight cid none;
  cq_tail = next_head s.qp.n_sqe s.cq_tail;
  phase = next_phase s.qp.n_sqe s.cq_tail s.phase;
  disk = disk;
  spec = spec;
}

pub completed-IsValid :
    (nd : ℕ) {D : Type 0} (s : System D) (cs : List ℕ) (cid : ℕ) (a : Ask)
    → IsValid nd s cs
    → s.flight cid ≡ some a
    → (buf4k : ℕ → List ℕ) (disk : D) (spec : Spec D) → ((i : ℕ) → i ≢ cid → buf4k i ≡ s.qp.buf4k i)
    → disk ≡ spec.disk
    → spec.delivered ≡ s.spec.delivered ++ delivery (s.qp.rbuf cid) (s.qp.len cid) (buf4k cid)
    → IsValid nd (completed s cid buf4k disk spec) (cs ++ cid ∷ [])
completed-IsValid nd s cs cid a v f buf4k disk spec off st lg = record {
  tail_in = v.tail_in;
  head_in = v.head_in;
  bit = v.bit;
  window =
      rw (v.at_tail, v.at_phase)
        (Window-post s.qp.n_sqe s.qp.cq_head s.qp.cq_phase v.head_in v.bit s.qp.cqes cs cid room
          v.window);
  at_tail = rw v.at_tail (
      next_head-slot s.qp.n_sqe s.qp.cq_head s.qp.cq_phase v.head_in v.bit (length cs) room
      ∙ ap (slot s.qp.n_sqe s.qp.cq_head) (sym (length-append cs (cid ∷ []))));
  at_phase =
      rw (v.at_tail, v.at_phase)
        (next_phase-lap s.qp.n_sqe s.qp.cq_head s.qp.cq_phase v.head_in v.bit (length cs) room
          ∙ ap (lap s.qp.n_sqe s.qp.cq_head s.qp.cq_phase) (sym (length-append cs (cid ∷ []))));
  distinct = Distinct-snoc cs cid v.distinct (not_waiting cs s.qp s.flight cid a f v.waiting);
  waiting =
      All-snoc
        (IsWaiting (completed s cid buf4k disk spec).qp (completed s cid buf4k disk spec).flight) cs
        cid
        (All-map cs (λ c w. (w.0, w.1, update_ne s.flight cid none c (other c w.2) ∙ w.2))
          v.waiting)
        ((v.flying cid a f).0, (v.flying cid a f).1, update_self s.flight cid none);
  flying = λ i b g. elim (ℕ_discrete cid i) [
    | yes p ↦ absurd (none-some (rw (← p, update_self s.flight cid none) at g))
    | no p ↦
        let w = v.flying i b (sym (update_ne s.flight cid none i p) ∙ g) in
        (w.0, w.1, rw (off i (λ q. p (sym q))) w.2)
  ];
  own = λ i b g. elim (ℕ_discrete cid i) [
    | yes p ↦ absurd (none-some (rw (← p, update_self s.flight cid none) at g))
    | no p ↦ v.own i b (sym (update_ne s.flight cid none i p) ∙ g)
  ];
  busy = λ i z g w.
      let (o, ne) = All-of_snoc (λ c. c ≢ i) cs cid w in
      v.busy i z (sym (update_ne s.flight cid none i ne) ∙ g) o;
  stored = st;
  logged =
      lg
      ∙ ap (λ l. l ++ delivery (s.qp.rbuf cid) (s.qp.len cid) (buf4k cid)) v.logged
      ∙ append_assoc s.qp.copies (deliveries s.qp.rbuf s.qp.len s.qp.buf4k cs) _
      ∙ ap (λ l. s.qp.copies ++ l)
          (ap (λ l. l ++ delivery (s.qp.rbuf cid) (s.qp.len cid) (buf4k cid))
              (sym (
                deliveries-same cs s.qp.rbuf s.qp.rbuf s.qp.len s.qp.len s.qp.buf4k buf4k
                  (All-map cs (λ c w. (refl, refl, off c (λ e. other c w.2 (sym e)))) v.waiting)))
            ∙ sym (deliveries-snoc s.qp.rbuf s.qp.len buf4k cs cid));
}
  where
    room : length cs < s.qp.n_sqe
    room = length-flying nd s cs cid a v f

    none-some : {x : Ask} → none ≡ some x → ⊥
    none-some e = cc

    other : (c : ℕ) → s.flight c ≡ none → cid ≢ c
    other c z e = none-some (sym z ∙ ap s.flight (sym e) ∙ f)
