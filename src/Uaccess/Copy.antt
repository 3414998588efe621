-- ===== src/Uaccess/Copy.antt =====
-- `raw_copy_from_user`: what is copied, where the copy stops, and that it ends.
use native.Mathlib.Nat.{one-le-pow, mod-lt}
use native.Mathlib.Decide.{dec_lt, ℕ_discrete}
use orlix_system.Prelude.{
  ℕ, zero, suc, ◌+◌, ◌-◌, ◌/◌, ◌%◌, ◌^◌, ◌≤◌, ◌<◌, ◌≡◌, ◌≢◌, refl, ap, ◌∙◌, ◌⊎◌, inl, inr, true,
  false, Option, none, some, arith, ne→==, ==_iff, Option-cases,
}
use orlix_system.Memory.{load_bytes, store_bytes}
use orlix_system.Memory.Frame.{store_bytes-outside, length-load_bytes, copied_byte}
use orlix_system.Uaccess.{
  Kernel, State, uaccess_resolve, resolve_or_fault, uaccess_fault_in, chunk_of, copy_from_loop,
  copy_from_user,
}
use orlix_system.Uaccess.Pages.{same_page}

-- A page table maps a page as a whole.
abbrev pub ByPage : {W : Type 0} → Kernel W → ℕ → Type 0
ByPage {W} kernel shift =
    (w : W) (a b : ℕ) → a / 2 ^ shift ≡ b / 2 ^ shift → kernel.pte w a ≡ kernel.pte w b

module _ {W : Type 0} (kernel : Kernel W) (shift : ℕ) (by_page : ByPage kernel shift) where
  abbrev source : W → ℕ → Option ℕ
  source w a = uaccess_resolve kernel shift a false w

  -- The user's bytes do not lie in the buffer.
  abbrev pub Apart : W → ℕ → ℕ → ℕ → Type 0
  Apart w dst from n = (j k : ℕ) → j < n → source w (from + j) ≡ some k → (k < dst) ⊎ (dst + n ≤ k)

  -- What is left after `r` of `n` bytes remain.
  pub record IsCopied (dst from n r : ℕ) (s s' : State W) : Type 0 where
    pub bounded : r ≤ n
    pub bytes :
        (j : ℕ)
        → j < n - r
        → (k : ℕ) × (source s.world (from + j) ≡ some k) × (s'.mem (dst + j) ≡ s.mem k % 256)
    pub outside : (a : ℕ) → (a < dst) ⊎ (dst + (n - r) ≤ a) → s'.mem a ≡ s.mem a
    pub stops : (r ≡ 0) ⊎ (source s.world (from + (n - r)) ≡ none)
    pub world_same : s'.world ≡ s.world

  chunk_bounds :
      (a n : ℕ)
      → n ≢ 0
      → (0 < chunk_of kernel shift a n)
        × (chunk_of kernel shift a n ≤ n)
        × (a % 2 ^ shift + chunk_of kernel shift a n ≤ 2 ^ shift)
  chunk_bounds a n h = omega (arith, mod-lt a {m = 2 ^ shift} (omega (arith, one-le-pow shift 2)))

  source_within :
      (w : W) (a j k : ℕ)
      → a % 2 ^ shift + j < 2 ^ shift
      → source w a ≡ some k
      → source w (a + j) ≡ some (k + j)
  unfolding uaccess_resolve
  source_within w a j k h e = ground (
    arith,
    e,
    by_page w (a + j) a (same_page a j (2 ^ shift) h).0,
    (same_page a j (2 ^ shift) h).1,
  )

  -- With the fault handler off a failed walk is final.
  resolve_no_fault :
      (a : ℕ) (s : State W)
      → kernel.faulthandler_disabled s.world ≡ true
      → resolve_or_fault kernel shift a false s ≡ (source s.world a, s)
  unfolding resolve_or_fault uaccess_fault_in
  resolve_no_fault a s off = elim (Option-cases (source s.world a)) [
    | inl e ↦ rw (resolve_or_fault, e, off)
    | inr (k, e) ↦ rw (resolve_or_fault, e)
  ]

  abbrev copied : ℕ → ℕ → ℕ → State W → State W
  copied c dst k s = record s { mem = store_bytes s.mem dst (load_bytes c s.mem k) }

  module _ (dst from n k c : ℕ) (s : State W) (start : source s.world from ≡ some k)
      (some_left : c ≤ n) (in_page : from % 2 ^ shift + c ≤ 2 ^ shift)
      (apart : Apart s.world dst from n) where
    -- The source bytes of the rest are not touched by the chunk.
    kept_outside : (a : ℕ) → (a < dst) ⊎ (dst + c ≤ a) → (copied c dst k s).mem a ≡ s.mem a
    kept_outside a h =
        store_bytes-outside s.mem dst (load_bytes c s.mem k) a
          (ground (arith, length-load_bytes c s.mem k))

    assoc : (j : ℕ) → from + (c + j) ≡ from + c + j
    assoc j = omega arith

    rest-Apart : Apart s.world (dst + c) (from + c) (n - c)
    rest-Apart j k' h e =
        let far : (k' < dst) ⊎ (dst + n ≤ k') =
          apart (c + j) k' (omega arith) (ap (source s.world) (assoc j) ∙ e) in
        omega arith

    IsCopied-chunk :
        (r : ℕ) (s' : State W)
        → IsCopied (dst + c) (from + c) (n - c) r (copied c dst k s) s'
        → IsCopied dst from n r s s'
    IsCopied-chunk r s' i = record {
      bounded = omega (arith, i.bounded);
      bytes = λ j h. elim (dec_lt j c) [
        | yes low ↦ (
          k + j,
          source_within s.world from j k (omega arith) start,
          i.outside (dst + j) (inl (omega arith)) ∙ copied_byte c s.mem s.mem dst k j low,
        )
        | no high ↦
            let (k', e, b) = i.bytes (j - c) (omega arith) in
            let at : source s.world (from + j) ≡ some k' = ap (source s.world) (omega arith) ∙ e in
            let far : (k' < dst) ⊎ (dst + n ≤ k') = apart j k' (omega (arith, i.bounded)) at in
            let same : (copied c dst k s).mem k' ≡ s.mem k' = kept_outside k' (omega arith) in
            (k', at, ap s'.mem (omega arith) ∙ b ∙ ap (λ (t : ℕ). t % 256) same)
      ];
      outside =
          λ a h. i.outside a (omega (arith, i.bounded)) ∙ kept_outside a (omega (arith, i.bounded));
      stops = elim i.stops [
        | inl e ↦ inl e
        | inr e ↦ inr (ap (source s.world) (omega (arith, i.bounded)) ∙ e)
      ];
      world_same = i.world_same;
    }

  IsCopied-none : (dst from n : ℕ) (s : State W) → n ≡ 0 → IsCopied dst from n 0 s s
  IsCopied-none dst from n s e = record {
    bounded = omega arith;
    bytes = λ j h. absurd (omega arith);
    outside = λ a h. refl;
    stops = inl refl;
    world_same = refl;
  }

  copy_from_loop-IsCopied :
      (fuel dst from n : ℕ) (s : State W)
      → n ≤ fuel
      → kernel.faulthandler_disabled s.world ≡ true
      → Apart s.world dst from n
      → (r : ℕ) × (s' : State W) × (copy_from_loop kernel shift fuel dst from n s ≡ some (r, s'))
        × IsCopied dst from n r s s'
  unfolding copy_from_loop
  copy_from_loop-IsCopied zero dst from n s h off apart =
      let none_left : n ≡ 0 = omega arith in
      (0, s, rw ((==_iff n 0).1 none_left), IsCopied-none dst from n s none_left)
  copy_from_loop-IsCopied (suc fuel) dst from n s h off apart = elim (ℕ_discrete n 0) [
    | yes none_left ↦
        (0, s, rw (copy_from_loop, (==_iff n 0).1 none_left), IsCopied-none dst from n s none_left)
    | no more ↦ elim (Option-cases (source s.world from)) [
      | inl e ↦ (
        n,
        s,
        rw (copy_from_loop, ne→== n 0 more, resolve_no_fault from s off, e)
            (ap (λ (t : Option ℕ × State W). some (n, t.1)) (resolve_no_fault from s off)),
        record {
          bounded = omega arith;
          bytes = λ j h. absurd (omega arith);
          outside = λ a h. refl;
          stops = inr (ap (source s.world) (omega arith) ∙ e);
          world_same = refl;
        },
      )
      | inr (k, e) ↦
          let c = chunk_of kernel shift from n in
          let b = chunk_bounds from n more in
          let (r, s', eq, i) =
            copy_from_loop-IsCopied fuel (dst + c) (from + c) (n - c) (copied c dst k s)
              (omega (arith, b)) off (rest-Apart dst from n k c s e b.1 b.2 apart) in
          (
            r,
            s',
            rw (copy_from_loop, ne→== n 0 more, resolve_no_fault from s off, e)
                (rw (resolve_no_fault from s off) eq),
            IsCopied-chunk dst from n k c s e b.1 b.2 apart r s' i,
          )
    ]
  ]

  -- With the fault handler off and the user's bytes outside the buffer, the copy ends for every
  -- fuel of at least `n`: the bytes before the ones that remain have been copied, nothing else is
  -- written, and unless nothing remains the first byte that does has no readable mapping.
  pub copy_from_user-IsCopied :
      (fuel dst from n : ℕ) (s : State W)
      → n ≤ fuel
      → kernel.has_mm s.world ≡ true
      → kernel.faulthandler_disabled s.world ≡ true
      → Apart s.world dst from n
      → (r : ℕ) × (s' : State W) × (copy_from_user kernel shift fuel dst from n s ≡ some (r, s'))
        × IsCopied dst from n r s s'
  unfolding copy_from_user
  copy_from_user-IsCopied fuel dst from n s h mm off apart =
      rw (copy_from_user, mm) (copy_from_loop-IsCopied fuel dst from n s h off apart)
