-- ===== src/Nvme/Consistent.antt =====
-- When a queue pair of mylib/nvme.cc and its drive are consistent, and that a poll keeps them so.
use mathlib.Core.List.{append-nil}
use staut.Prelude.{
  ℕ, ◌+◌, ◌*◌, ◌≤◌, ◌<◌, ◌≡◌, refl, sym, arith, ap, ◌∙◌, ◌≢◌, Option, none, some, List, [], ◌∷◌,
  ◌++◌, length, take,
}
use staut.Nvme.Address.{stripe_lba}
use staut.Nvme.Qp.{Qp, buffer, Sqe, check_cq}
use staut.Nvme.Lists.{All, All-map, Distinct, length-Distinct}
use staut.Nvme.Polled.{deliveries, marked_ne, marked_zero, check_cq_fields}
use staut.Nvme.Window.{slot, lap, Window, Window-polled, slot_lt, lap_lt, slot_zero, lap_zero}
use staut.Nvme.Device.{Ask, reads, writes, System}

-- Command `e`, with its destination, length and buffer, is what the request asks for.
abbrev pub Holds : ℕ → Sqe → Option ℕ → ℕ → List ℕ → Ask → Type 0
Holds nd e dst l buf4k (reads lba num_blk len buf) =
    (e.opc ≡ 2)
    × (e.cdw10 ≡ stripe_lba nd lba)
    × (e.cdw12 + 1 ≡ num_blk)
    × (dst ≡ some buf)
    × (l ≡ len)
    × (len ≤ 512 * num_blk)
Holds nd e dst l buf4k (writes lba num_blk bytes) =
    (e.opc ≡ 1)
    × (e.cdw10 ≡ stripe_lba nd lba)
    × (e.cdw12 + 1 ≡ num_blk)
    × (dst ≡ none)
    × (take (512 * num_blk) buf4k ≡ bytes)

-- A command whose completion stands in the queue.
abbrev pub IsWaiting : Qp → (ℕ → Option Ask) → ℕ → Type 0
IsWaiting q flight c = (c < q.n_sqe) × (q.done_flag c ≡ 0) × (flight c ≡ none)

-- `cs` are the commands whose completions stand in the queue.
pub record IsValid (nd : ℕ) {D : Type 0} (s : System D) (cs : List ℕ) : Type 0 where
  pub tail_in : s.qp.sq_tail < s.qp.n_sqe
  pub head_in : s.qp.cq_head < s.qp.n_sqe
  pub bit : s.qp.cq_phase < 2
  pub window : Window s.qp.n_sqe s.qp.cqes s.qp.cq_head s.qp.cq_phase cs
  pub at_tail : s.cq_tail ≡ slot s.qp.n_sqe s.qp.cq_head (length cs)
  pub at_phase : s.phase ≡ lap s.qp.n_sqe s.qp.cq_head s.qp.cq_phase (length cs)
  pub distinct : Distinct cs
  pub waiting : All (IsWaiting s.qp s.flight) cs
  pub flying :
      (i : ℕ) (a : Ask)
      → s.flight i ≡ some a
      → (i < s.qp.n_sqe)
        × (s.qp.done_flag i ≡ 0)
        × Holds nd (s.qp.sqes i) (s.qp.rbuf i) (s.qp.len i) (s.qp.buf4k i) a
  pub own : (i : ℕ) (a : Ask) → s.flight i ≡ some a → (s.qp.sqes i).prp1 ≡ buffer i
  pub busy : (i : ℕ) → s.qp.done_flag i ≡ 0 → s.flight i ≡ none → All (λ c. c ≢ i) cs → ⊥
  pub stored : s.disk ≡ s.spec.disk
  pub logged : s.spec.delivered ≡ s.qp.copies ++ deliveries s.qp.rbuf s.qp.len s.qp.buf4k cs

pub length-waiting :
    (nd : ℕ) {D : Type 0} (s : System D) (cs : List ℕ) → IsValid nd s cs → length cs ≤ s.qp.n_sqe
length-waiting nd s cs v =
    length-Distinct s.qp.n_sqe cs (All-map cs (λ c h. h.0) v.waiting) v.distinct

pub not_waiting :
    (cs : List ℕ) (q : Qp) (flight : ℕ → Option Ask) (i : ℕ) (a : Ask)
    → flight i ≡ some a
    → All (IsWaiting q flight) cs
    → All (λ c. c ≢ i) cs
not_waiting cs q flight i a f = All-map cs (λ c h e. none-some (sym h.2 ∙ ap flight e ∙ f))
  where
    none-some : none ≡ some a → ⊥
    none-some e = cc

-- With a command in flight there is room for its completion.
pub length-flying :
    (nd : ℕ) {D : Type 0} (s : System D) (cs : List ℕ) (i : ℕ) (a : Ask)
    → IsValid nd s cs
    → s.flight i ≡ some a
    → length cs < s.qp.n_sqe
length-flying nd s cs i a v f =
    length-Distinct s.qp.n_sqe (i ∷ cs) ((v.flying i a f).0, All-map cs (λ c h. h.0) v.waiting)
      (not_waiting cs s.qp s.flight i a f v.waiting, v.distinct)

pub deliveries-same :
    (cs : List ℕ) (r r' : ℕ → Option ℕ) (l l' : ℕ → ℕ) (b b' : ℕ → List ℕ)
    → All (λ c. (r' c ≡ r c) × (l' c ≡ l c) × (b' c ≡ b c)) cs
    → deliveries r' l' b' cs ≡ deliveries r l b cs
deliveries-same [] r r' l l' b b' h = refl
deliveries-same (c ∷ cs) r r' l l' b b' h =
    rw (h.0.0, h.0.1, h.0.2, deliveries-same cs r r' l l' b b' h.1)

-- A poll consumes every completion, and delivers what they are for.
pub poll-IsValid :
    (nd : ℕ) {D : Type 0} (s : System D) (cs : List ℕ)
    → IsValid nd s cs
    → IsValid nd (record s { qp = check_cq s.qp }) [] × ((check_cq s.qp).copies ≡ s.spec.delivered)
poll-IsValid nd s cs v =
    let (d, e) = check_cq_fields s.qp cs v.head_in v.bit (length-waiting nd s cs v) v.window in
    rw e (
      (
        record {
          tail_in = v.tail_in;
          head_in =
              slot_lt s.qp.n_sqe s.qp.cq_head s.qp.cq_phase v.head_in v.bit (length cs)
                (length-waiting nd s cs v);
          bit = lap_lt s.qp.n_sqe s.qp.cq_head s.qp.cq_phase v.head_in v.bit (length cs);
          window =
              Window-polled s.qp.n_sqe s.qp.cq_head s.qp.cq_phase v.head_in v.bit s.qp.cqes cs
                (length-waiting nd s cs v) v.window;
          at_tail =
              v.at_tail
              ∙ sym (
                  slot_zero s.qp.n_sqe (slot s.qp.n_sqe s.qp.cq_head (length cs)) 0
                    (slot_lt s.qp.n_sqe s.qp.cq_head s.qp.cq_phase v.head_in v.bit (length cs)
                      (length-waiting nd s cs v))
                    (omega arith));
          at_phase =
              v.at_phase
              ∙ sym (
                  lap_zero s.qp.n_sqe (slot s.qp.n_sqe s.qp.cq_head (length cs))
                    (lap s.qp.n_sqe s.qp.cq_head s.qp.cq_phase (length cs))
                    (slot_lt s.qp.n_sqe s.qp.cq_head s.qp.cq_phase v.head_in v.bit (length cs)
                      (length-waiting nd s cs v))
                    (lap_lt s.qp.n_sqe s.qp.cq_head s.qp.cq_phase v.head_in v.bit (length cs)));
          distinct = tt;
          waiting = tt;
          flying = λ i a f. (
            (v.flying i a f).0,
            marked_ne cs s.qp.done_flag i (not_waiting cs s.qp s.flight i a f v.waiting)
                ∙ (v.flying i a f).1,
            (v.flying i a f).2,
          );
          own = v.own;
          busy = λ i z f _. let m = marked_zero cs s.qp.done_flag i z in v.busy i m.0 f m.1;
          stored = v.stored;
          logged = v.logged ∙ sym (append-nil _);
        },
        sym v.logged,
      ))
