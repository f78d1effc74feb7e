-- ===== src/Nvme/Polled.antt =====
-- What a poll of mylib/nvme.cc changes in a queue pair, in closed form.
use mathlib.Core.List.{append_assoc, append-nil}
use staut.Prelude.{
  ℕ, ◌+◌, ◌≤◌, ◌<◌, ◌≡◌, refl, sym, arith, ap, ap₂, ◌∙◌, ◌≢◌, Option, none, some, List, [], ◌∷◌,
  ◌++◌, length, take, update, update_self, update_ne,
}
use staut.Nvme.Lists.{All}
use staut.Nvme.Qp.{Qp, Cqe, Copy, complete, next_head, next_phase, check_cq}
use staut.Nvme.Poll.{Posted, completes, moved, polled, check_cq-Posted}
use staut.Nvme.Window.{
  slot, lap, Window, Window-Posted, next_head-slot, next_phase-lap, slot_zero, lap_zero,
}

-- The copy that the completion of a command makes.
abbrev pub delivery : Option ℕ → ℕ → List ℕ → List Copy
delivery none len buf = []
delivery (some p) len buf = record { dst = p; bytes = take len buf } ∷ []

abbrev pub deliveries : (ℕ → Option ℕ) → (ℕ → ℕ) → (ℕ → List ℕ) → List ℕ → List Copy
deliveries rbuf len buf4k [] = []
deliveries rbuf len buf4k (c ∷ cs) =
    delivery (rbuf c) (len c) (buf4k c) ++ deliveries rbuf len buf4k cs

abbrev pub marked : (ℕ → ℕ) → List ℕ → ℕ → ℕ
marked f [] = f
marked f (c ∷ cs) = marked (update f c 1) cs

abbrev pub head_from : ℕ → ℕ → List ℕ → ℕ
head_from n head [] = head
head_from n head (c ∷ cs) = head_from n (next_head n head) cs

abbrev pub phase_from : ℕ → ℕ → ℕ → List ℕ → ℕ
phase_from n head phase [] = phase
phase_from n head phase (c ∷ cs) = phase_from n (next_head n head) (next_phase n head phase) cs

-- What a poll that completes `cs` changes.
pub completes_fields :
    (cs : List ℕ) (q : Qp)
    → completes q cs ≡ record q {
      copies = q.copies ++ deliveries q.rbuf q.len q.buf4k cs;
      done_flag = marked q.done_flag cs;
      cq_head = head_from q.n_sqe q.cq_head cs;
      cq_phase = phase_from q.n_sqe q.cq_head q.cq_phase cs;
    }
unfolding complete
completes_fields [] q = rw append-nil refl
completes_fields (c ∷ cs) q =
    completes_fields cs (moved q c)
    ∙ ap {A = List Copy}
        (λ k. record q {
          copies = k;
          done_flag = marked (update q.done_flag c 1) cs;
          cq_head = head_from q.n_sqe (next_head q.n_sqe q.cq_head) cs;
          cq_phase =
              phase_from q.n_sqe (next_head q.n_sqe q.cq_head)
                (next_phase q.n_sqe q.cq_head q.cq_phase) cs;
        })
        (ap (λ k. k ++ deliveries q.rbuf q.len q.buf4k cs) (appended (q.rbuf c))
          ∙ append_assoc q.copies (delivery (q.rbuf c) (q.len c) (q.buf4k c)) _)
  where
    appended :
        (o : Option ℕ)
        → (elim o [
          | none ↦ q.copies
          | some p ↦ q.copies ++ record { dst = p; bytes = take (q.len c) (q.buf4k c) } ∷ []
        ])
          ≡ q.copies ++ delivery o (q.len c) (q.buf4k c)
    appended none = sym (append-nil q.copies)
    appended (some p) = refl

module _ (n head phase : ℕ) (in_range : head < n) (bit : phase < 2) where
  head_from-slot_at :
      (cs : List ℕ) (j : ℕ)
      → j + length cs ≤ n
      → head_from n (slot n head j) cs ≡ slot n head (j + length cs)
  head_from-slot_at [] j l = ap (slot n head) (omega arith)
  head_from-slot_at (c ∷ cs) j l =
      rw (next_head-slot n head phase in_range bit j (omega arith))
        (head_from-slot_at cs (j + 1) (omega arith) ∙ ap (slot n head) (omega arith))

  phase_from-lap_at :
      (cs : List ℕ) (j : ℕ)
      → j + length cs ≤ n
      → phase_from n (slot n head j) (lap n head phase j) cs ≡ lap n head phase (j + length cs)
  phase_from-lap_at [] j l = ap (lap n head phase) (omega arith)
  phase_from-lap_at (c ∷ cs) j l =
      rw
        (
          next_head-slot n head phase in_range bit j (omega arith),
          next_phase-lap n head phase in_range bit j (omega arith),
        )
        (phase_from-lap_at cs (j + 1) (omega arith) ∙ ap (lap n head phase) (omega arith))

  pub head_from-slot : (cs : List ℕ) → length cs ≤ n → head_from n head cs ≡ slot n head (length cs)
  head_from-slot cs l =
      ap (λ h. head_from n h cs) (sym (slot_zero n head phase in_range bit))
      ∙ head_from-slot_at cs 0 (omega arith)
      ∙ ap (slot n head) (omega arith)

  pub phase_from-lap :
      (cs : List ℕ) → length cs ≤ n → phase_from n head phase cs ≡ lap n head phase (length cs)
  phase_from-lap cs l =
      ap₂ (λ h p. phase_from n h p cs) (sym (slot_zero n head phase in_range bit))
        (sym (lap_zero n head phase in_range bit))
      ∙ phase_from-lap_at cs 0 (omega arith)
      ∙ ap (lap n head phase) (omega arith)

Posted-unique :
    (n : ℕ) (cqes : ℕ → Cqe) (head phase : ℕ) (cs ds : List ℕ)
    → Posted n cqes head phase cs
    → Posted n cqes head phase ds
    → cs ≡ ds
Posted-unique n cqes head phase [] [] h k = refl
Posted-unique n cqes head phase [] (d ∷ ds) h k = absurd (h k.0)
Posted-unique n cqes head phase (c ∷ cs) [] h k = absurd (k h.0)
Posted-unique n cqes head phase (c ∷ cs) (d ∷ ds) h k =
    ap₂ (◌∷◌) (sym h.1 ∙ k.1)
      (Posted-unique n cqes (next_head n head) (next_phase n head phase) cs ds h.2 k.2)

polled_fields :
    (q : Qp)
    → q.cq_head < q.n_sqe
    → q.cq_phase < 2
    → (cs : List ℕ) → length cs ≤ q.n_sqe
    → (d : ℕ) × (polled q cs ≡ record q {
      copies = q.copies ++ deliveries q.rbuf q.len q.buf4k cs;
      done_flag = marked q.done_flag cs;
      cq_head = slot q.n_sqe q.cq_head (length cs);
      cq_phase = lap q.n_sqe q.cq_head q.cq_phase (length cs);
      cq_doorbell = d;
    })
polled_fields q h b cs l = go cs (completes_fields cs q) l
  where
    go :
        (cs : List ℕ)
        → completes q cs ≡ record q {
          copies = q.copies ++ deliveries q.rbuf q.len q.buf4k cs;
          done_flag = marked q.done_flag cs;
          cq_head = head_from q.n_sqe q.cq_head cs;
          cq_phase = phase_from q.n_sqe q.cq_head q.cq_phase cs;
        }
        → length cs ≤ q.n_sqe
        → (d : ℕ) × (polled q cs ≡ record q {
          copies = q.copies ++ deliveries q.rbuf q.len q.buf4k cs;
          done_flag = marked q.done_flag cs;
          cq_head = slot q.n_sqe q.cq_head (length cs);
          cq_phase = lap q.n_sqe q.cq_head q.cq_phase (length cs);
          cq_doorbell = d;
        })
    go [] e l = (
      q.cq_doorbell,
      rw
          (
            ← head_from-slot q.n_sqe q.cq_head q.cq_phase h b [] l,
            ← phase_from-lap q.n_sqe q.cq_head q.cq_phase h b [] l,
          )
          e,
    )
    go (c ∷ ds) e l = (
      slot q.n_sqe q.cq_head (length (c ∷ ds)),
      ap {A = Qp} (λ r. record r { cq_doorbell = r.cq_head }) e
          ∙ ap₂
              (λ x y. record q {
                copies = q.copies ++ deliveries q.rbuf q.len q.buf4k (c ∷ ds);
                done_flag = marked q.done_flag (c ∷ ds);
                cq_head = x;
                cq_phase = y;
                cq_doorbell = x;
              })
              (head_from-slot q.n_sqe q.cq_head q.cq_phase h b (c ∷ ds) l)
              (phase_from-lap q.n_sqe q.cq_head q.cq_phase h b (c ∷ ds) l),
    )

-- A poll of a queue that holds the completions of `cs`.
pub check_cq_fields :
    (q : Qp) (cs : List ℕ)
    → q.cq_head < q.n_sqe
    → q.cq_phase < 2
    → length cs ≤ q.n_sqe
    → Window q.n_sqe q.cqes q.cq_head q.cq_phase cs
    → (d : ℕ) × (check_cq q ≡ record q {
      copies = q.copies ++ deliveries q.rbuf q.len q.buf4k cs;
      done_flag = marked q.done_flag cs;
      cq_head = slot q.n_sqe q.cq_head (length cs);
      cq_phase = lap q.n_sqe q.cq_head q.cq_phase (length cs);
      cq_doorbell = d;
    })
check_cq_fields q cs h b l w =
    let (ds, p, _, e) = check_cq-Posted q h b in
    let same =
      Posted-unique q.n_sqe q.cqes q.cq_head q.cq_phase ds cs p
        (Window-Posted q.n_sqe q.cq_head q.cq_phase h b q.cqes cs l w) in
    let (d, f) = polled_fields q h b cs l in (d, e ∙ ap (polled q) same ∙ f)

pub marked_ne : (cs : List ℕ) (f : ℕ → ℕ) (i : ℕ) → All (λ c. c ≢ i) cs → marked f cs i ≡ f i
marked_ne [] f i h = refl
marked_ne (c ∷ cs) f i h = marked_ne cs (update f c 1) i h.1 ∙ update_ne f c 1 i h.0

pub deliveries-snoc :
    (r : ℕ → Option ℕ) (l : ℕ → ℕ) (b : ℕ → List ℕ) (cs : List ℕ) (c : ℕ)
    → deliveries r l b (cs ++ c ∷ []) ≡ deliveries r l b cs ++ delivery (r c) (l c) (b c)
deliveries-snoc r l b [] c = append-nil _
deliveries-snoc r l b (d ∷ cs) c =
    ap (λ x. delivery (r d) (l d) (b d) ++ x) (deliveries-snoc r l b cs c)
    ∙ sym (append_assoc (delivery (r d) (l d) (b d)) (deliveries r l b cs) _)

-- A command that is not done behind the poll was not before, and is none of `cs`.
pub marked_zero :
    (cs : List ℕ) (f : ℕ → ℕ) (i : ℕ) → marked f cs i ≡ 0 → (f i ≡ 0) × All (λ c. c ≢ i) cs
marked_zero [] f i h = (h, tt)
marked_zero (c ∷ cs) f i h =
    let rest = marked_zero cs (update f c 1) i h in
    let ne : c ≢ i = λ e. ground (arith, rest.0, ap (update f c 1) e, update_self f c 1) in
    (sym (update_ne f c 1 i ne) ∙ rest.0, (ne, rest.1))
