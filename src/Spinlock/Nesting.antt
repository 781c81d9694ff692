-- ===== src/Spinlock/Nesting.antt =====
-- `push_off` and `pop_off` of spinlock.c are matched.
use cuhksz_operating_system.Prelude.{
  ◌-◌, ◌<◌, ◌≡◌, inl, inr, refl, sym, ◌∙◌, false, ◌&&◌, Option, none, some, ◌==◌, arith, Bool-cases,
  ==→eq, ==→ne, eq→==, ne→==,
}
use cuhksz_operating_system.Spinlock.{Cpu, push_off, pop_off}

-- Code that calls the two in pairs: nothing, or a pair around code, and code after it.
pub data Code : Type 0 where
  nothing : Code
  pair : Code → Code → Code

unfoldable pub run : Code → Cpu → Option Cpu
run nothing c = some c
run (pair inner next) c = elim (run inner (push_off c)) [
  | none ↦ none
  | some c₁ ↦ elim (pop_off c₁) [ none ↦ none | some c₂ ↦ run next c₂ ]
]

-- Inside of a pair there are no interrupts.
abbrev pub IsCpu : Cpu → Type 0
IsCpu c = 0 < c.noff → c.intr ≡ false

pub record Restored (c c' : Cpu) : Type 0 where
  pub noff : c'.noff ≡ c.noff
  pub intr : c'.intr ≡ c.intr
  pub intena : 0 < c.noff → c'.intena ≡ c.intena

pop_off-restores :
    (c c₁ : Cpu)
    → IsCpu c
    → Restored (push_off c) c₁
    → (c₂ : Cpu) × (pop_off c₁ ≡ some c₂) × Restored c c₂
unfolding push_off pop_off
pop_off-restores c c₁ ok r = (
  record c₁ { noff = c₁.noff - 1; intr = c₁.noff - 1 == 0 && c₁.intena },
  rw (r.intr, ne→== c₁.noff 0 (λ z. absurd (omega (arith, z, r.noff)))) refl,
  record {
    noff = omega (arith, r.noff);
    intr = elim (Bool-cases (c.noff == 0)) [
      | inl e ↦
          rw (eq→== (c₁.noff - 1) 0 (omega (arith, r.noff, ==→eq _ _ e)))
            (r.intena (omega arith) ∙ rw e refl)
      | inr e ↦
          rw (ne→== (c₁.noff - 1) 0 (λ z. ==→ne _ _ e (omega (arith, r.noff, z))))
            (sym (ok (omega (arith, ==→ne _ _ e))))
    ];
    intena =
        λ h. r.intena (omega arith) ∙ rw (ne→== c.noff 0 (λ z. absurd (omega (arith, z, h)))) refl;
  },
)

-- On a processor that has no interrupts inside of a pair: code that calls `push_off` and `pop_off` in
-- pairs, nested in any way, does not panic. After it the processor has interrupts on if and only if it
-- had before, it is in as many pairs as before, and inside of a pair the flag that is remembered for
-- the last `pop_off` is the same.
pub run-Restored :
    (code : Code) (c : Cpu) → IsCpu c → (c' : Cpu) × (run code c ≡ some c') × Restored c c'
unfolding run
run-Restored nothing c ok = (c, refl, record { noff = refl; intr = refl; intena = λ h. refl })
run-Restored (pair inner next) c ok =
    let (c₁, e₁, r₁) = run-Restored inner (push_off c) (λ h. unfold push_off in refl) in
    let (c₂, e₂, r₂) = pop_off-restores c c₁ ok r₁ in
    let (c₃, e₃, r₃) = run-Restored next c₂ (λ h. r₂.intr ∙ ok (omega (arith, h, r₂.noff))) in
    (
      c₃,
      rw (e₁, run) (rw e₂ e₃),
      record {
        noff = r₃.noff ∙ r₂.noff;
        intr = r₃.intr ∙ r₂.intr;
        intena = λ h. r₃.intena (omega (arith, h, r₂.noff)) ∙ r₂.intena h;
      },
    )
