-- ===== src/Threads/Keys.antt =====
-- `pthread_key_create`, `pthread_setspecific`, `pthread_getspecific` and `pthread_key_delete` of
-- mylib/mylib.c. The keys of Argobots are a parameter.
use staut.Prelude.{
  ℕ, zero, suc, ◌+◌, ◌<◌, ◌≡◌, refl, ap, sym, ◌∙◌, ◌≢◌, ◌⊎◌, inl, inr, arith, Option, none, some,
  Option-cases, ltb, lt→ltb, ltb-false, if◌then◌else◌, update, update_self, ◌>>=◌,
}

-- What is used of Argobots. `key_create` gives a return value, a key and the state behind it; the value of
-- a key is that of the calling thread.
pub record AbtKeys (A : Type 0) : Type 0 where
  pub key_create : A → ℕ × ℕ × A
  pub key_set : ℕ → ℕ → A → ℕ × A
  pub key_get : ℕ → A → ℕ
  pub key_free : ℕ → A → ℕ × A

-- N_KEY
abbrev pub n_key : ℕ
n_key = 1024

-- EAGAIN
abbrev pub eagain : ℕ
eagain = 11

-- `abt_keys`, where 0 is `none`, and the state of Argobots.
pub record Keys (A : Type 0) : Type 0 where
  pub abt_keys : ℕ → Option ℕ
  pub abt : A

-- The loop of `pthread_key_create`: `n` rounds are left, from `i_key` on.
unfoldable pub free_key : ℕ → ℕ → (ℕ → Option ℕ) → ℕ
free_key zero i_key abt_keys = i_key
free_key (suc n) i_key abt_keys = elim (abt_keys i_key) [
  | none ↦ i_key
  | some _ ↦ free_key n (i_key + 1) abt_keys
]

module _ {A : Type 0} (lib : AbtKeys A) where
  abbrev store_key : Keys A → ℕ → ℕ × ℕ × A → ℕ × Option ℕ × Keys A
  store_key s i_key r =
      (r.0, some i_key, record { abt_keys = update s.abt_keys i_key (some r.1); abt = r.2 })

  -- `pthread_key_create`: the return value, what is written to `*key`, and the state.
  unfoldable pub pthread_key_create : Keys A → ℕ × Option ℕ × Keys A
  unfolding free_key
  pthread_key_create s =
      let i_key = free_key n_key 0 s.abt_keys in
      if ltb i_key n_key then store_key s i_key (lib.key_create s.abt) else (eagain, none, s)

  -- `none` is the load through a null pointer.
  unfoldable pub pthread_setspecific : Keys A → ℕ → ℕ → Option (ℕ × Keys A)
  pthread_setspecific s key value = s.abt_keys key >>= λ k.
      some ((lib.key_set k value s.abt).0, record s { abt = (lib.key_set k value s.abt).1 })

  unfoldable pub pthread_getspecific : Keys A → ℕ → Option ℕ
  pthread_getspecific s key = s.abt_keys key >>= λ k. some (lib.key_get k s.abt)

  unfoldable pub pthread_key_delete : Keys A → ℕ → Option (ℕ × Keys A)
  pthread_key_delete s key = s.abt_keys key >>= λ k. some (
    (lib.key_free k s.abt).0,
    record { abt_keys = update s.abt_keys key none; abt = (lib.key_free k s.abt).1 },
  )

  -- No two entries hold the same key.
  abbrev pub IsInjective : Keys A → Type 0
  IsInjective s = (i j k : ℕ) → s.abt_keys i ≡ some k → s.abt_keys j ≡ some k → i ≡ j

  -- The `k`-th entry is the first that is free.
  abbrev pub FirstFree : (ℕ → Option ℕ) → ℕ → Type 0
  FirstFree abt_keys k = (abt_keys k ≡ none) × ((i : ℕ) → i < k → abt_keys i ≢ none)

  free_key-cases :
      (n i m : ℕ) (abt_keys : ℕ → Option ℕ)
      → i + n ≡ m
      → ((j : ℕ) → j < i → abt_keys j ≢ none)
      → ((free_key n i abt_keys < m) × FirstFree abt_keys (free_key n i abt_keys))
        ⊎ ((free_key n i abt_keys ≡ m) × ((j : ℕ) → j < m → abt_keys j ≢ none))
  unfolding free_key
  free_key-cases zero i m abt_keys e before = inr (omega arith, λ j h. before j (omega arith))
  free_key-cases (suc n) i m abt_keys e before = elim (Option-cases (abt_keys i)) [
    | inl h ↦ rw (h, free_key) (inl (omega arith, (h, before)))
    | inr (k, h) ↦
        rw (h, free_key)
          (free_key-cases n (i + 1) m abt_keys (omega arith) (λ j l. ground (arith, before j, h)))
  ]

  -- What a creation may do.
  abbrev pub Created : Keys A → ℕ × Option ℕ × Keys A → Type 0
  Created s r =
      ((k : ℕ) × (k < n_key)
        × FirstFree s.abt_keys k
        × (r.0 ≡ (lib.key_create s.abt).0)
        × (r.1 ≡ some k)
        × (r.2.abt_keys k ≡ some (lib.key_create s.abt).1)
        × IsInjective r.2)
      ⊎ (((j : ℕ) → j < n_key → s.abt_keys j ≢ none) × (r ≡ (eagain, none, s)))

  store_key-IsInjective :
      (s : Keys A) (k : ℕ) (r : ℕ × ℕ × A)
      → IsInjective s
      → ((i : ℕ) → s.abt_keys i ≢ some r.1)
      → IsInjective (store_key s k r).2
  store_key-IsInjective s k r inj new i j h e f = ground (arith, inj i j h, new i, new j)

  -- `pthread_key_create` takes the lowest free entry for the key that Argobots gives, and answers EAGAIN and
  -- changes nothing if there is none. If Argobots gives a new key, no two entries hold the same one after.
  pub pthread_key_create-Created :
      (s : Keys A)
      → IsInjective s
      → ((i : ℕ) → s.abt_keys i ≢ some (lib.key_create s.abt).1)
      → Created s (pthread_key_create s)
  unfolding pthread_key_create
  pthread_key_create-Created s inj new =
      elim (free_key-cases n_key 0 n_key s.abt_keys refl (λ j h. elim h [ ])) [
        | inl (h, first) ↦ rw (lt→ltb (free_key n_key 0 s.abt_keys) n_key h) (
            inl (
              free_key n_key 0 s.abt_keys,
              h,
              first,
              refl,
              refl,
              update_self s.abt_keys (free_key n_key 0 s.abt_keys) (some (lib.key_create s.abt).1),
              store_key-IsInjective s (free_key n_key 0 s.abt_keys) (lib.key_create s.abt) inj new,
            ))
        | inr (h, full) ↦
            rw (ltb-false (free_key n_key 0 s.abt_keys) n_key (omega (arith, h))) (inr (full, refl))
      ]

  get-none : (s : Keys A) (key : ℕ) → s.abt_keys key ≡ none → pthread_getspecific s key ≡ none
  unfolding pthread_getspecific
  get-none s key h = rw h refl

  get-same :
      (s : Keys A) (key k : ℕ)
      → s.abt_keys key ≡ some k
      → pthread_getspecific s key ≡ some (lib.key_get k s.abt)
  unfolding pthread_getspecific
  get-same s key k h = rw h refl

  -- If Argobots keeps a value for each of its keys, so do the keys of pthreads: behind
  -- `pthread_setspecific` of an entry in use that entry has the new value, and any other entry the value
  -- that it had.
  pthread_getspecific-setspecific :
      (s : Keys A) (key other k value : ℕ)
      → ((k v : ℕ) (a : A) → lib.key_get k (lib.key_set k v a).1 ≡ v)
      → ((k k' v : ℕ) (a : A) → k ≢ k' → lib.key_get k' (lib.key_set k v a).1 ≡ lib.key_get k' a)
      → IsInjective s
      → key ≢ other
      → s.abt_keys key ≡ some k
      → (ret : ℕ) × (t : Keys A) × (pthread_setspecific s key value ≡ some (ret, t))
        × (pthread_getspecific t key ≡ some value)
        × (pthread_getspecific t other ≡ pthread_getspecific s other)
  unfolding pthread_setspecific
  pthread_getspecific-setspecific s key other k value same different inj ne h = (
    (lib.key_set k value s.abt).0,
    t,
    rw h refl,
    get-same t key k h ∙ ap some (same k value s.abt),
    elim (Option-cases (s.abt_keys other)) [
      | inl e ↦ others_none e
      | inr (k', e) ↦
          get-same t other k' e
          ∙ ap some (different k k' value s.abt (λ q. ne (inj key other k h (e ∙ ap some (sym q)))))
          ∙ sym (get-same s other k' e)
    ],
  )
    where
      t : Keys A
      t = record s { abt = (lib.key_set k value s.abt).1 }

      others_none :
          s.abt_keys other ≡ none → pthread_getspecific t other ≡ pthread_getspecific s other
      others_none e = get-none t other e ∙ sym (get-none s other e)
