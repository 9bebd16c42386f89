-- ===== src/Spin/Nesting.antt =====
-- The nesting of `push_off` and `pop_off`.
use advanced_operating_syste.Prelude.{
  ℕ, zero, suc, ◌+◌, ◌^◌, ◌<◌, ◌≡◌, ◌≢◌, refl, ◌∙◌, false, ◌&&◌, ◌==◌, if◌then◌else◌, Outcome, ok,
  ◌>>=◌, arith, ℕ_discrete,
}
use advanced_operating_syste.Spin.{Cpu, push_off, pop_off}

abbrev pub pushes : ℕ → Cpu → Cpu
pushes zero c = c
pushes (suc n) c = pushes n (push_off c)

abbrev pub pops : ℕ → Cpu → Outcome Cpu
pops zero c = ok c
pops (suc n) c = do c' ← pop_off c; pops n c'

pushes_lem :
    (n : ℕ) (c : Cpu)
    → c.noff + suc n < 2 ^ 31
    → pushes (suc n) c ≡ record {
      noff = c.noff + suc n;
      intena = if c.noff == 0 then c.sie else c.intena;
      sie = false;
    }
unfolding push_off
pushes_lem zero c lt = ground (arith, lt)
pushes_lem (suc n) c lt = pushes_lem n (push_off c) (ground (arith, lt)) ∙ ground (arith, lt)

pops_lem :
    (n k : ℕ) (c : Cpu)
    → c.noff ≡ k + suc n
    → c.sie ≡ false
    → k + suc n < 2 ^ 31
    → pops (suc n) c ≡ ok (record c { noff = k; sie = k == 0 && c.intena })
unfolding pop_off
pops_lem zero k c depth off lt = ground (arith, depth, off, lt)
pops_lem (suc n) k c depth off lt =
    let first : pop_off c ≡ ok (record c { noff = k + suc n; sie = false }) =
      ground (arith, depth, off, lt) in
    rw first
      (pops_lem n k (record c { noff = k + suc n; sie = false }) refl refl (omega (arith, lt)))

-- As many `pop_off` as `push_off`, fewer than fill an int, give back the nesting depth and the
-- interrupt enable bit, on a CPU that has interrupts off when it is nested.
pub pops-pushes :
    (n : ℕ) (c : Cpu)
    → c.noff + n < 2 ^ 31
    → (c.noff ≢ 0 → c.sie ≡ false)
    → (c' : Cpu) × (pops n (pushes n c) ≡ ok c') × (c'.noff ≡ c.noff) × (c'.sie ≡ c.sie)
pops-pushes zero c lt nested = (c, refl, refl, refl)
pops-pushes (suc n) c lt nested =
    let pushed : Cpu = record {
      noff = c.noff + suc n;
      intena = if c.noff == 0 then c.sie else c.intena;
      sie = false;
    } in
    (
      record pushed { noff = c.noff; sie = c.noff == 0 && pushed.intena },
      rw (pushes_lem n c lt) (pops_lem n c.noff pushed refl refl lt),
      refl,
      elim (ℕ_discrete c.noff 0) [
        | yes e ↦ ground (arith, e)
        | no ne ↦ ground (arith, ne, nested ne)
      ],
    )
