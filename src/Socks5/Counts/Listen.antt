-- ===== src/Socks5/Counts/Listen.antt =====
-- `listen` takes the lowest port of its range that can be bound.
use titan_ipoverlay.Prelude.{
  ℕ, zero, suc, ◌+◌, ◌-◌, ◌≤◌, ◌<◌, ◌≡◌, ◌⊎◌, Bool, true, false, Option, none, some, arith,
  Bool-cases, subst, inl, inr,
}
use titan_ipoverlay.Socks5.Counts.{listen_from, listen}

-- Either the lowest free port from `lo` on below `hi`, or no free port there.
abbrev pub Lowest : (ℕ → Bool) → ℕ → ℕ → Option ℕ → Type 0
Lowest free lo hi none = (q : ℕ) → lo ≤ q → q < hi → free q ≡ false
Lowest free lo hi (some p) =
    (lo ≤ p) × (p < hi) × (free p ≡ true) × ((q : ℕ) → lo ≤ q → q < p → free q ≡ false)

here_or_above : (p q : ℕ) → p ≤ q → (q ≡ p) ⊎ (p + 1 ≤ q)
here_or_above p q h = omega arith

busy_below :
    (free : ℕ → Bool) (p hi : ℕ)
    → free p ≡ false
    → ((q : ℕ) → p + 1 ≤ q → q < hi → free q ≡ false)
    → (q : ℕ) → p ≤ q
    → q < hi
    → free q ≡ false
busy_below free p hi busy above q lo lt = elim (here_or_above p q lo) [
  | inl e ↦ rw e busy
  | inr gt ↦ above q gt lt
]

Lowest-busy :
    (free : ℕ → Bool) (p hi : ℕ) (o : Option ℕ)
    → free p ≡ false
    → Lowest free (p + 1) hi o
    → Lowest free p hi o
Lowest-busy free p hi none busy h = busy_below free p hi busy h
Lowest-busy free p hi (some q) busy h = (omega arith, h.1, h.2, busy_below free p q busy h.3)

listen_from-Lowest :
    (free : ℕ → Bool) (rounds p : ℕ) → Lowest free p (p + rounds) (listen_from free rounds p)
unfolding listen_from
listen_from-Lowest free zero p = λ q lo lt. absurd (omega arith)
listen_from-Lowest free (suc r) p = elim (Bool-cases (free p)) [
  | inl yes_free ↦ rw yes_free (omega arith, omega arith, yes_free, λ q lo lt. absurd (omega arith))
  | inr busy ↦
      let e : p + 1 + r ≡ p + suc r = omega arith in
      rw busy (Lowest-busy free p (p + suc r) _ busy (rw e at (listen_from-Lowest free r (p + 1))))
]

-- `listen` gives the lowest port of the range that can be bound, and fails only when none can.
pub listen-Lowest :
    (free : ℕ → Bool) (start_port end_port : ℕ)
    → start_port ≤ end_port + 1
    → Lowest free start_port (end_port + 1) (listen free start_port end_port)
unfolding listen
listen-Lowest free start_port end_port h =
    let e : start_port + (end_port + 1 - start_port) ≡ end_port + 1 = omega arith in
    subst
      (λ hi. Lowest free start_port hi (listen_from free (end_port + 1 - start_port) start_port)) e
      (listen_from-Lowest free (end_port + 1 - start_port) start_port)
