-- ===== src/Threads/Got.antt =====
-- What `get_abt_mutex` and `get_abt_cond` of mylib/mylib.c answer, one call at a time.
use staut.Prelude.{
  ℕ, ◌≡◌, refl, ap, ◌∙◌, ◌≢◌, inl, inr, arith, Bool, true, some, update, update_self, update_ne,
  ◌>>=◌,
}
use staut.Threads.Lazy.{Kind}
use staut.Threads.Objects.{
  Abt, Wrap, Objects, no_attr, is_readable, create, wrap_magic, made, ensure, load_handle, get_abt,
}
use staut.Threads.Handles.{
  IsAbt, IsFree, IsValid, made-IsValid, live-IsValid, load_handle-some, ensure-same, ensure-made,
}

-- What `get_abt_mutex` and `get_abt_cond` answer for an object in use.
pub record Got {A : Type 0} (lib : Abt A) (alive : A → ℕ → Type 0) (live : ℕ → Bool) (kind : Kind)
    (obj p : ℕ) (s : Objects A) : Type 0 where
  pub handle : ℕ
  pub state : Objects A
  pub answer : get_abt lib kind obj p s ≡ some (handle, state)
  pub valid : IsValid alive live state
  pub wrap : Wrap
  pub held : state.wraps (state.slot obj) ≡ some wrap
  pub same : wrap.handle ≡ handle
  pub others : (q : ℕ) → p ≢ q → state.wraps q ≡ s.wraps q

module _ {A : Type 0} {lib : Abt A} {alive : A → ℕ → Type 0} (lib-IsAbt : IsAbt lib alive)
    {live : ℕ → Bool} where
  ensure-Got :
      (kind : Kind) (obj p : ℕ) (s t : Objects A) (w : Wrap)
      → IsValid alive live t
      → ensure lib kind obj p s ≡ some t
      → t.wraps (t.slot obj) ≡ some w
      → ((q : ℕ) → p ≢ q → t.wraps q ≡ s.wraps q)
      → Got lib alive live kind obj p s
  unfolding get_abt
  ensure-Got kind obj p s t w valid e h others = record {
    handle = w.handle;
    state = t;
    answer =
        ap (λ r. r >>= λ t. load_handle lib obj t) e ∙ load_handle-some lib-IsAbt valid obj w h;
    valid = valid;
    wrap = w;
    held = h;
    same = refl;
    others = others;
  }

  pub get_abt-Got :
      (kind : Kind) (obj p : ℕ) (s : Objects A)
      → IsValid alive live s
      → live obj ≡ true
      → IsFree s p
      → (s.slot obj ≡ 0 → is_readable kind no_attr ≡ true)
      → Got lib alive live kind obj p s
  unfolding made
  get_abt-Got kind obj p s valid l free lazy = elim (valid.owned obj l) [
    | inr (w, h) ↦
        ensure-Got kind obj p s s w valid (ensure-same lib-IsAbt valid kind obj p w h) h
          (λ q ne. refl)
    | inl z ↦
        ensure-Got kind obj p s (made lib kind obj p no_attr s).1
          (record { magic = wrap_magic lib kind; handle = (create lib kind no_attr s.abt).1 })
          (live-IsValid lib-IsAbt (made-IsValid lib-IsAbt valid kind obj p no_attr free) live
            (λ o h. ground (arith, h)))
          (ensure-made lib-IsAbt valid kind obj p (lazy z) z)
          (ap
              (update s.wraps p (
                some (record {
                  magic = wrap_magic lib kind;
                  handle = (create lib kind no_attr s.abt).1;
                })))
              (update_self s.slot obj p)
            ∙ update_self s.wraps p _)
          (λ q ne. update_ne s.wraps p _ q ne)
  ]
