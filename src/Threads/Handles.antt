-- ===== src/Threads/Handles.antt =====
-- That each mutex and each condition variable of mylib/mylib.c keeps an object of Argobots of its own.
use staut.Prelude.{
  ℕ, ◌≡◌, refl, ap, sym, ◌∙◌, subst, ◌≢◌, ◌⊎◌, inl, inr, arith, Bool, true, false, Option, none,
  some, update, update_self, update_ne, ◌==◌, ℕ_discrete,
}
use staut.Threads.Lazy.{Kind, magic, new_magic}
use staut.Threads.Objects.{
  Abt, Wrap, Objects, Attr, no_attr, is_readable, create, wrap_magic, made, init, ensure,
  load_handle,
}

-- What is used of Argobots: `alive a h` where `h` is the handle of an object that was made and not freed.
-- An object is made with a new handle, and making another leaves it.
pub record IsAbt {A : Type 0} (lib : Abt A) (alive : A → ℕ → Type 0) : Type 0 where
  pub create_new : (kind : Kind) (attr : Attr) (a : A) → alive a (create lib kind attr a).1 → ⊥
  pub create_alive :
      (kind : Kind) (attr : Attr) (a : A)
      → alive (create lib kind attr a).2 (create lib kind attr a).1
  pub create_keeps :
      (kind : Kind) (attr : Attr) (a : A) (h : ℕ) → alive a h → alive (create lib kind attr a).2 h

-- A call that frees nothing.
abbrev pub Keeps : {A : Type 0} → (A → ℕ → Type 0) → (ℕ → A → ℕ × A) → Type 0
Keeps {A} alive call = (h h' : ℕ) (a : A) → alive a h' → alive (call h a).1 h'

-- A call that frees its own handle at most.
abbrev pub KeepsOthers : {A : Type 0} → (A → ℕ → Type 0) → (ℕ → A → ℕ × A) → Type 0
KeepsOthers {A} alive call = (h h' : ℕ) (a : A) → h ≢ h' → alive a h' → alive (call h a).1 h'

-- An address whose lower half is neither 0 nor the mark.
abbrev pub IsAddress : ℕ → Type 0
IsAddress p = (magic p ≢ 0) × (magic p ≢ new_magic)

-- What `malloc` may give.
abbrev pub IsFree : {A : Type 0} → Objects A → ℕ → Type 0
IsFree s p = (s.wraps p ≡ none) × IsAddress p

-- `live` are the objects in use. Each is as its static initializer left it, or has a wrapper; no two have
-- the same wrapper, and no two wrappers the same handle.
pub record IsValid {A : Type 0} (alive : A → ℕ → Type 0) (live : ℕ → Bool) (s : Objects A)
    : Type 0 where
  pub owned :
      (o : ℕ) → live o ≡ true → (s.slot o ≡ 0) ⊎ ((w : Wrap) × (s.wraps (s.slot o) ≡ some w))
  pub apart :
      (o o' : ℕ) → live o ≡ true → live o' ≡ true → s.slot o ≡ s.slot o' → (o ≡ o') ⊎ (s.slot o ≡ 0)
  pub address : (p : ℕ) (w : Wrap) → s.wraps p ≡ some w → IsAddress p
  pub used : (p : ℕ) (w : Wrap) → s.wraps p ≡ some w → alive s.abt w.handle
  pub handles :
      (p q : ℕ) (w v : Wrap) → s.wraps p ≡ some w → s.wraps q ≡ some v → w.handle ≡ v.handle → p ≡ q

==-ne : (m n : ℕ) → m ≢ n → (m == n) ≡ false
==-ne m n h = ground arith

some-inj : {B : Type 0} {x y : B} → some x ≡ some y → x ≡ y
some-inj e = cc

pub none-some : {B : Type 0} {x : B} → none ≡ some x → ⊥
none-some e = cc

update-some :
    {B : Type 0} (f : ℕ → Option B) (p i : ℕ) (x y : B)
    → update f p (some x) i ≡ some y
    → ((p ≡ i) × (x ≡ y)) ⊎ (f i ≡ some y)
update-some f p i x y h = elim (ℕ_discrete p i) [
  | yes e ↦ inl (e, some-inj (sym (update_self f p (some x)) ∙ ap (update f p (some x)) e ∙ h))
  | no ne ↦ inr (sym (update_ne f p (some x) i ne) ∙ h)
]

module _ {A : Type 0} {lib : Abt A} {alive : A → ℕ → Type 0} (lib-IsAbt : IsAbt lib alive)
    {live : ℕ → Bool} {s : Objects A} (valid : IsValid alive live s) where
  open valid use {owned, apart, address, used, handles}

  -- No object in use has the address of a free wrapper.
  slot-IsFree : (p o : ℕ) → IsFree s p → live o ≡ true → s.slot o ≢ p
  slot-IsFree p o free l e = elim (owned o l) [
    | inl z ↦ free.1.0 (ap magic (sym e ∙ z))
    | inr (w, h) ↦ none-some (sym free.0 ∙ ap s.wraps (sym e) ∙ h)
  ]

  pub made-IsValid :
      (kind : Kind) (obj p : ℕ) (attr : Attr)
      → IsFree s p
      → IsValid alive (update live obj true) (made lib kind obj p attr s).1
  unfolding made
  made-IsValid kind obj p attr free = record {
    owned = λ o l. elim (ℕ_discrete obj o) [
      | yes e ↦ inr (
        w0,
        ap wraps (ap (update s.slot obj p) (sym e) ∙ update_self s.slot obj p)
            ∙ update_self s.wraps p (some w0),
      )
      | no ne ↦ elim (owned o (sym (update_ne live obj true o ne) ∙ l)) [
        | inl z ↦ inl (update_ne s.slot obj p o ne ∙ z)
        | inr (w, h) ↦ inr (
          w,
          ap wraps (update_ne s.slot obj p o ne)
              ∙ update_ne s.wraps p (some w0) (s.slot o)
                  (λ q. slot-IsFree p o free (sym (update_ne live obj true o ne) ∙ l) (sym q))
              ∙ h,
        )
      ]
    ];
    apart = λ o o' l l' e.
        ground (arith, e, l, l', slot-IsFree p o free, slot-IsFree p o' free, apart o o');
    address = λ q w h. elim (update-some s.wraps p q w0 w h) [
      | inl (e, _) ↦ subst IsAddress e free.1
      | inr h' ↦ address q w h'
    ];
    used = λ q w h. elim (update-some s.wraps p q w0 w h) [
      | inl (_, e) ↦ subst (λ v. alive r.2 v.handle) e (lib-IsAbt.create_alive kind attr s.abt)
      | inr h' ↦ lib-IsAbt.create_keeps kind attr s.abt w.handle (used q w h')
    ];
    handles = λ a b w v h k e. elim (update-some s.wraps p a w0 w h) [
      | inl (ea, ew) ↦ elim (update-some s.wraps p b w0 v k) [
        | inl (eb, _) ↦ sym ea ∙ eb
        | inr k' ↦ absurd (new b v k' (ap Wrap.handle ew ∙ e))
      ]
      | inr h' ↦ elim (update-some s.wraps p b w0 v k) [
        | inl (_, ev) ↦ absurd (new a w h' (ap Wrap.handle ev ∙ sym e))
        | inr k' ↦ handles a b w v h' k' e
      ]
    ];
  }
    where
      r : ℕ × ℕ × A
      r = create lib kind attr s.abt

      w0 : Wrap
      w0 = record { magic = wrap_magic lib kind; handle = r.1 }

      wraps : ℕ → Option Wrap
      wraps = update s.wraps p (some w0)

      new : (q : ℕ) (w : Wrap) → s.wraps q ≡ some w → r.1 ≢ w.handle
      new q w h e = lib-IsAbt.create_new kind attr s.abt (subst (alive s.abt) (sym e) (used q w h))

  pub live-IsValid :
      (live' : ℕ → Bool) → ((o : ℕ) → live' o ≡ true → live o ≡ true) → IsValid alive live' s
  live-IsValid live' sub = record {
    owned = λ o l. owned o (sub o l);
    apart = λ o o' l l' e. apart o o' (sub o l) (sub o' l') e;
    address = address;
    used = used;
    handles = handles;
  }

  -- Another state of Argobots that has the handles of the wrappers.
  pub abt-IsValid :
      (a : A)
      → ((p : ℕ) (w : Wrap) → s.wraps p ≡ some w → alive a w.handle)
      → IsValid alive live (record s { abt = a })
  abt-IsValid a have = record {
    owned = owned;
    apart = apart;
    address = address;
    used = have;
    handles = handles;
  }

  pub load_handle-some :
      (obj : ℕ) (w : Wrap)
      → s.wraps (s.slot obj) ≡ some w
      → load_handle lib obj s ≡ some (w.handle, s)
  unfolding load_handle
  load_handle-some obj w h =
      rw (h, ==-ne (magic (s.slot obj)) new_magic (address (s.slot obj) w h).1) refl

  pub ensure-same :
      (kind : Kind) (obj p : ℕ) (w : Wrap)
      → s.wraps (s.slot obj) ≡ some w
      → ensure lib kind obj p s ≡ some s
  unfolding ensure
  ensure-same kind obj p w h = rw (==-ne (magic (s.slot obj)) 0 (address (s.slot obj) w h).0) refl

  pub ensure-made :
      (kind : Kind) (obj p : ℕ)
      → is_readable kind no_attr ≡ true
      → s.slot obj ≡ 0
      → ensure lib kind obj p s ≡ some (made lib kind obj p no_attr s).1
  unfolding ensure init
  ensure-made kind obj p readable z = rw (ap (λ x. magic x == 0) z, readable) refl
