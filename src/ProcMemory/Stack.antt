-- ===== src/ProcMemory/Stack.antt =====
-- `set_user_stack` keeps the stack mapped.
use stable_genius.Common.{
  ℕ, zero, suc, ◌+◌, ◌-◌, ◌*◌, ◌/◌, ◌%◌, ◌^◌, ◌≤◌, ◌<◌, ◌≡◌, refl, Bool, true, false, some, inl,
  inr, ltb, ◌==◌, ◌||◌, arith, ◌∙◌, Bool-cases, Option-cases, if◌then◌else◌,
}
use stable_genius.Common.Int.{ℤ, pos, minus_one}
use stable_genius.UserHeap.{add32, sub32}
use stable_genius.ProcMemory.{
  Mapped, page, ProcMemory, map_page, allocate_page, page_above, stack_loop, set_user_stack,
}

-- Every address of a stack of a size, which ends at the base, is mapped.
abbrev pub StackMapped : (base size : ℕ) → Mapped → Type 0
StackMapped base size m = (a : ℕ) → base ≤ a + size → a < base → m (a / page) ≡ true

allocate_page-maps :
    (frame : ℕ → Bool) (addr : ℕ) (m m' : Mapped)
    → allocate_page frame addr m ≡ some m'
    → (q : ℕ) → m' q ≡ (if q == addr / page then true else m q)
unfolding allocate_page map_page
allocate_page-maps frame addr m m' e q = ground (arith, e)

module _ (frame : ℕ → Bool) (base : ℕ) (whole : base % page ≡ 0) (word : base < 2 ^ 32) where
  -- The page below the stack
  grown :
      (cur : ℕ) (m m' : Mapped)
      → cur % page ≡ 0
      → cur + page ≤ base
      → allocate_page frame (sub32 (sub32 base cur) page) m ≡ some m'
      → StackMapped base cur m
      → StackMapped base (cur + page) m'
  grown cur m m' even fits e s a low high =
      let at = allocate_page-maps frame (sub32 (sub32 base cur) page) m m' e (a / page) in
      let place : sub32 (sub32 base cur) page ≡ base - cur - page = omega arith in
      elim (Bool-cases (ltb (a + cur) base)) [
        | inl below ↦
            let less : a + cur < base = ground (arith, below) in
            let same : a / page ≡ (base - cur - page) / page = omega arith in
            at ∙ rw (place, same) (ground arith)
        | inr inside ↦ let old = s a (ground (arith, inside)) high in ground (arith, at, old)
      ]

  further :
      (n sz cur : ℕ) (m m1 : Mapped)
      → cur < sz
      → allocate_page frame (sub32 (sub32 base cur) page) m ≡ some m1
      → add32 cur page ≡ cur + page
      → stack_loop frame base (suc (suc n)) sz cur m
        ≡ stack_loop frame base (suc n) sz (cur + page) m1
  unfolding stack_loop
  further n sz cur m m1 less e sum = ground (arith, less, e, sum)

  -- The loop ends, and what it took belongs to the stack.
  stack_loop-ends :
      (n sz cur : ℕ) (m : Mapped)
      → sz % page ≡ 0
      → cur % page ≡ 0
      → sz ≤ base
      → cur ≤ base
      → sz < cur + suc n * page
      → StackMapped base cur m
      → (m' : Mapped) × (cur' : ℕ) × (given : Bool) × (stack_loop frame base (suc n) sz cur m
          ≡ some (m', cur', given))
        × StackMapped base cur' m'
        × (cur ≤ cur')
        × (cur' ≤ base)
        × (given ≡ true → sz ≤ cur')
  unfolding stack_loop
  stack_loop-ends zero sz cur m even even' fits fits' enough s =
      let done : ltb cur sz ≡ false = ground (arith, enough, even, even') in
      (m, cur, true, rw done refl, s, omega arith, fits', λ _. ground (arith, done))
  stack_loop-ends (suc n) sz cur m even even' fits fits' enough s =
      let addr = sub32 (sub32 base cur) page in
      elim (Bool-cases (ltb cur sz)) [
        | inr done ↦ (m, cur, true, rw done refl, s, omega arith, fits', λ _. ground (arith, done))
        | inl more ↦ elim (Option-cases (allocate_page frame addr m)) [
          | inl refused ↦
              (m, cur, false, ground (arith, more, refused), s, omega arith, fits', λ y. cc)
          | inr (m1, e) ↦
              let less : cur < sz = ground (arith, more) in
              let room : cur + page ≤ sz = omega arith in
              let sum : add32 cur page ≡ cur + page = omega arith in
              let (m', cur', given, eq, s', up, top, all) =
                stack_loop-ends n sz (cur + page) m1 even (omega arith) fits (omega arith)
                  (omega arith) (grown cur m m1 even' (omega arith) e s) in
              (m', cur', given, further n sz cur m m1 less e sum ∙ eq, s', omega arith, top, all)
        ]
      ]

answered :
    (given : Bool) (sz top cur : ℕ)
    → (if given then pos 0 else minus_one) ≡ pos 0
    → (given ≡ true → top ≤ cur)
    → sz ≤ top
    → sz ≤ cur
answered true sz top cur z all le = let h = all refl in omega (arith, h)
answered false sz top cur z all le = absurd (ground (arith, z))

-- `set_user_stack` keeps every address of the stack mapped, on every branch: it ends, the stack does
-- not shrink and does not grow past the base, the break stays where it is, and where the answer is
-- 0 the stack has the size that was asked for at least. Where the memory runs out on the way the
-- pages that were given belong to the stack. It asks for a base and a stack of whole pages, and
-- that the largest size of a stack and the present one are at most the base.
pub set_user_stack-StackMapped :
    (frame : ℕ → Bool) (base sz : ℕ) (p : ProcMemory)
    → base % page ≡ 0
    → base < 2 ^ 32
    → sz + page < 2 ^ 32
    → p.current_stack % page ≡ 0
    → p.current_stack ≤ base
    → p.max_stack ≤ base
    → StackMapped base p.current_stack p.mapped
    → (p' : ProcMemory) × (z : ℤ) × (set_user_stack frame base sz p ≡ some (p', z))
      × StackMapped base p'.current_stack p'.mapped
      × (p.current_stack ≤ p'.current_stack)
      × (p'.current_stack ≤ base)
      × (p'.break_point ≡ p.break_point)
      × (z ≡ pos 0 → sz ≤ p'.current_stack)
unfolding set_user_stack
set_user_stack-StackMapped frame base sz p whole word small even fits limit s =
    elim (Bool-cases (ltb sz p.current_stack)) [
      | inl enough ↦
          (p, pos 0, rw enough refl, s, omega arith, fits, refl, λ _. ground (arith, enough))
      | inr more ↦
          let top = page_above sz in
          let top' : top ≡ sz - sz % page + page = omega arith in
          elim (Bool-cases (ltb p.max_stack top || ltb (sub32 base top) p.break_point)) [
            | inl refused ↦
                (p, minus_one, rw (more, refused) refl, s, omega arith, fits, refl, λ e. cc)
            | inr room ↦
                let below : top ≤ p.max_stack = ground (arith, room) in
                let (m, cur, given, e, s', up, limit', all) =
                  stack_loop-ends frame base whole word (2 ^ 20) top p.current_stack p.mapped
                    (omega (arith, top')) even (omega (arith, below)) fits (omega (arith, top'))
                    s in
                (
                  record p { mapped = m; current_stack = cur },
                  if given then pos 0 else minus_one,
                  ground (arith, more, room, e),
                  s',
                  up,
                  limit',
                  refl,
                  λ z. answered given sz top cur z all (omega (arith, top')),
                )
          ]
    ]
