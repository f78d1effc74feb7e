-- ===== src/Threads/Kept.antt =====
-- That every call on the objects of mylib/mylib.c answers and leaves each object its own handle.
use staut.Prelude.{
  ℕ, ◌≡◌, refl, ap, sym, ◌∙◌, ◌≢◌, inl, inr, arith, Bool, true, false, Option, none, some, update,
  update_self, update_ne, ◌>>=◌, ℕ_discrete,
}
use staut.Threads.Lazy.{Kind, mutex, cond, magic}
use staut.Threads.Objects.{
  Abt, Wrap, Objects, no_attr, is_readable, made, init, with_handle, destroy, wait, timed,
  pthread_cond_timedwait, pthread_cond_clockwait,
}
use staut.Threads.Handles.{
  IsAbt, Keeps, KeepsOthers, IsFree, IsValid, none-some, made-IsValid, abt-IsValid,
}
use staut.Threads.Got.{get_abt-Got}
use staut.Threads.Calls.{
  Call, mutex_init, mutex_destroy, mutex_lock, mutex_trylock, mutex_unlock, cond_init, cond_destroy,
  cond_signal, cond_broadcast, cond_wait, cond_timedwait, cond_clockwait, run, IsUse, live_after,
}

-- No call but the two that free an object takes a handle away, and these take their own only.
pub record IsCareful {A : Type 0} (lib : Abt A) (alive : A → ℕ → Type 0) : Type 0 where
  pub lock : Keeps alive lib.mutex_lock
  pub trylock : Keeps alive lib.mutex_trylock
  pub unlock : Keeps alive lib.mutex_unlock
  pub signal : Keeps alive lib.cond_signal
  pub broadcast : Keeps alive lib.cond_broadcast
  pub waiting : (c : ℕ) → Keeps alive (lib.cond_wait c)
  pub timedwait : (c abstime : ℕ) → Keeps alive (λ m. lib.cond_timedwait c m abstime)
  pub clockwait : (c clk abstime : ℕ) → Keeps alive (λ m. lib.cond_clockwait c m clk abstime)
  pub free_mutex : KeepsOthers alive lib.mutex_free
  pub free_cond : KeepsOthers alive lib.cond_free

-- A call answers, and the state behind is well formed.
abbrev pub Answers : {A : Type 0} → (A → ℕ → Type 0) → (ℕ → Bool) → Option (ℕ × Objects A) → Type 0
Answers {A} alive live r = (ret : ℕ) × (t : Objects A) × (r ≡ some (ret, t)) × IsValid alive live t

update-none :
    {B : Type 0} (f : ℕ → Option B) (p i : ℕ) (y : B)
    → update f p none i ≡ some y
    → (p ≢ i) × (f i ≡ some y)
update-none f p i y h = elim (ℕ_discrete p i) [
  | yes e ↦ absurd (none-some (sym (update_self f p none) ∙ ap (update f p none) e ∙ h))
  | no ne ↦ (ne, sym (update_ne f p none i ne) ∙ h)
]

module _ {A : Type 0} {lib : Abt A} {alive : A → ℕ → Type 0} (lib-IsAbt : IsAbt lib alive)
    {live : ℕ → Bool} where
  with_handle-Answers :
      (kind : Kind) (obj p : ℕ) (call : ℕ → A → ℕ × A) (s : Objects A)
      → Keeps alive call
      → IsValid alive live s
      → live obj ≡ true
      → IsFree s p
      → (s.slot obj ≡ 0 → is_readable kind no_attr ≡ true)
      → Answers alive live (with_handle lib kind obj p call s)
  unfolding with_handle
  with_handle-Answers kind obj p call s keeps valid l free lazy =
      let g = get_abt-Got lib-IsAbt kind obj p s valid l free lazy in
      (
        (call g.handle g.state.abt).0,
        record (g.state) { abt = (call g.handle g.state.abt).1 },
        ap (λ r. r >>= λ r. some ((call r.0 r.1.abt).0, record r.1 { abt = (call r.0 r.1.abt).1 }))
            g.answer,
        abt-IsValid lib-IsAbt g.valid (call g.handle g.state.abt).1
            (λ q w h. keeps g.handle w.handle g.state.abt (g.valid.used q w h)),
      )

  -- The wrapper of an object in use goes, and its handle with it.
  free-IsValid :
      (obj : ℕ) (w : Wrap) (a : A) (t : Objects A)
      → IsValid alive live t
      → live obj ≡ true
      → t.wraps (t.slot obj) ≡ some w
      → ((h : ℕ) → w.handle ≢ h → alive t.abt h → alive a h)
      → IsValid alive
          (update live obj false)
          (record t { wraps = update t.wraps (t.slot obj) none; abt = a })
  free-IsValid obj w a t valid l held keeps = record {
    owned = λ o lo. elim (valid.owned o (was lo)) [
      | inl z ↦ inl z
      | inr (v, h) ↦ inr (v, update_ne t.wraps (t.slot obj) none (t.slot o) (elsewhere o lo) ∙ h)
    ];
    apart = λ o o' lo lo' e. valid.apart o o' (was lo) (was lo') e;
    address = λ p v h. valid.address p v (update-none t.wraps (t.slot obj) p v h).1;
    used = λ p v h.
        let (ne, h') = update-none t.wraps (t.slot obj) p v h in
        keeps v.handle (λ e. ne (valid.handles (t.slot obj) p w v held h' e)) (valid.used p v h');
    handles = λ p q v u h k e.
        valid.handles p q v u (update-none t.wraps (t.slot obj) p v h).1
          (update-none t.wraps (t.slot obj) q u k).1 e;
  }
    where
      was : {o : ℕ} → update live obj false o ≡ true → live o ≡ true
      was {o} h = ground (arith, h)

      elsewhere : (o : ℕ) → update live obj false o ≡ true → t.slot obj ≢ t.slot o
      elsewhere o h e = elim (valid.apart obj o l (was h) e) [
        | inl q ↦ ground (arith, h, q)
        | inr z ↦ (valid.address (t.slot obj) w held).0 (ap magic z)
      ]

  destroy-Answers :
      (kind : Kind) (obj p : ℕ) (free : ℕ → A → ℕ × A) (s : Objects A)
      → KeepsOthers alive free
      → IsValid alive live s
      → live obj ≡ true
      → IsFree s p
      → (s.slot obj ≡ 0 → is_readable kind no_attr ≡ true)
      → Answers alive (update live obj false) (destroy lib kind obj p free s)
  unfolding destroy with_handle
  destroy-Answers kind obj p free s keeps valid l fresh lazy =
      let g = get_abt-Got lib-IsAbt kind obj p s valid l fresh lazy in
      let r = free g.handle g.state.abt in
      (
        r.0,
        record (g.state) { wraps = update g.state.wraps (g.state.slot obj) none; abt = r.1 },
        ap (λ x. (x >>= called) >>= closed) g.answer,
        free-IsValid obj g.wrap r.1 g.state g.valid l g.held
            (λ h ne. keeps g.handle h g.state.abt (λ e. ne (g.same ∙ e))),
      )
    where
      called : ℕ × Objects A → Option (ℕ × Objects A)
      called r = some ((free r.0 r.1.abt).0, record r.1 { abt = (free r.0 r.1.abt).1 })

      closed : ℕ × Objects A → Option (ℕ × Objects A)
      closed r = some (r.0, record r.1 { wraps = update r.1.wraps (r.1.slot obj) none })

  wait-Answers :
      (c m p q : ℕ) (call : ℕ → ℕ → A → ℕ × A) (s : Objects A)
      → ((h : ℕ) → Keeps alive (call h))
      → IsValid alive live s
      → live c ≡ true
      → live m ≡ true
      → p ≢ q
      → IsFree s p
      → IsFree s q
      → s.slot c ≢ 0
      → Answers alive live (wait lib c m p q call s)
  unfolding wait
  wait-Answers c m p q call s keeps valid lc lm ne free_p free_q ready =
      let g = get_abt-Got lib-IsAbt cond c p s valid lc free_p (λ z. absurd (ready z)) in
      let (ret, t, e, v) =
        with_handle-Answers mutex m q (call g.handle) g.state (keeps g.handle) g.valid lm
          (g.others q ne ∙ free_q.0, free_q.1) (λ _. refl) in
      (ret, t, ap (λ r. r >>= λ r. with_handle lib mutex m q (call r.0) r.1) g.answer ∙ e, v)

  timed-Answers :
      (r : Option (ℕ × Objects A))
      → Answers alive live r
      → Answers alive live (r >>= λ x. some (timed lib x.0, x.1))
  timed-Answers r (ret, t, e, v) =
      (timed lib ret, t, ap (λ r. r >>= λ x. some (timed lib x.0, x.1)) e, v)

-- Every call of a correct program on a mutex, or on a condition variable that was initialized with
-- attributes, answers, and leaves each object in use
-- without a wrapper or with one of its own, whose handle is that of no other wrapper and is in use in
-- Argobots. Argobots makes objects with new handles, and frees only those that it is asked to free.
pub run-IsValid :
    {A : Type 0} (lib : Abt A) (alive : A → ℕ → Type 0) (live : ℕ → Bool) (s : Objects A)
    (call : Call)
    → IsAbt lib alive
    → IsCareful lib alive
    → IsValid alive live s
    → IsUse live s call
    → Answers alive (live_after live call) (run lib call s)
unfolding run init pthread_cond_timedwait pthread_cond_clockwait
run-IsValid lib alive live s (mutex_init obj p attr) abt careful valid free =
    (_, _, refl, made-IsValid abt valid mutex obj p attr free)
run-IsValid lib alive live s (cond_init obj p attr) abt careful valid free = (
  (made lib cond obj p attr s).0,
  (made lib cond obj p attr s).1,
  rw free.1 refl,
  made-IsValid abt valid cond obj p attr free.0,
)
run-IsValid lib alive live s (mutex_destroy obj p) abt careful valid u =
    destroy-Answers abt mutex obj p lib.mutex_free s careful.free_mutex valid u.0 u.1 (λ _. refl)
run-IsValid lib alive live s (cond_destroy obj p) abt careful valid u =
    destroy-Answers abt cond obj p lib.cond_free s careful.free_cond valid u.0 u.1
      (λ z. absurd (u.2 z))
run-IsValid lib alive live s (mutex_lock obj p) abt careful valid u =
    with_handle-Answers abt mutex obj p lib.mutex_lock s careful.lock valid u.0 u.1 (λ _. refl)
run-IsValid lib alive live s (mutex_trylock obj p) abt careful valid u =
    with_handle-Answers abt mutex obj p lib.mutex_trylock s careful.trylock valid u.0 u.1
      (λ _. refl)
run-IsValid lib alive live s (mutex_unlock obj p) abt careful valid u =
    with_handle-Answers abt mutex obj p lib.mutex_unlock s careful.unlock valid u.0 u.1 (λ _. refl)
run-IsValid lib alive live s (cond_signal obj p) abt careful valid u =
    with_handle-Answers abt cond obj p lib.cond_signal s careful.signal valid u.0 u.1
      (λ z. absurd (u.2 z))
run-IsValid lib alive live s (cond_broadcast obj p) abt careful valid u =
    with_handle-Answers abt cond obj p lib.cond_broadcast s careful.broadcast valid u.0 u.1
      (λ z. absurd (u.2 z))
run-IsValid lib alive live s (cond_wait c m p q) abt careful valid (lc, lm, ne, fp, fq, ready) =
    wait-Answers abt c m p q lib.cond_wait s careful.waiting valid lc lm ne fp fq ready
run-IsValid lib alive live s (cond_timedwait c m p q abstime) abt careful valid
      (lc, lm, ne, fp, fq, ready) =
    timed-Answers abt _ (
      wait-Answers abt c m p q (λ hc hm. lib.cond_timedwait hc hm abstime) s
        (λ h. careful.timedwait h abstime) valid lc lm ne fp fq ready)
run-IsValid lib alive live s (cond_clockwait c m p q clk abstime) abt careful valid
      (lc, lm, ne, fp, fq, ready) =
    timed-Answers abt _ (
      wait-Answers abt c m p q (λ hc hm. lib.cond_clockwait hc hm clk abstime) s
        (λ h. careful.clockwait h clk abstime) valid lc lm ne fp fq ready)
