-- ===== src/Executor/Calls.antt =====
-- Calls that mutate the portfolio and may raise. The portfolio comes back after a raise too, since
-- Python does not undo what was written.
use agora_perp_agent.Prelude.{Bool, Option, none, some, if◌then◌else◌}
use agora_perp_agent.Prelude.Errors.{Error, Result, ok, err}
use agora_perp_agent.Contracts.{PortfolioState}

abbrev pub Action : Type 0 → Type 0 → Type 0
Action F A = PortfolioState F → Result A × PortfolioState F

module _ {F A : Type 0} where
  abbrev pub pure : A → Action F A
  pure a p = (ok a, p)

  -- A computation that touches nothing.
  abbrev pub lift : Result A → Action F A
  lift r p = (r, p)

  abbrev pub or_raise : Option A → Error → Action F A
  or_raise none e p = (err e, p)
  or_raise (some a) e p = (ok a, p)

  abbrev pub gets : (PortfolioState F → A) → Action F A
  gets g p = (ok (g p), p)

infixl 5 ◌>>=◌ ◌>>◌
abbrev pub ◌>>=◌ : {F A B : Type 0} → Action F A → (A → Action F B) → Action F B
◌>>=◌ m k p = let (r, p') = m p in elim r [ ok a ↦ k a p' | err e ↦ (err e, p') ]

abbrev pub ◌>>◌ : {F A B : Type 0} → Action F A → Action F B → Action F B
m >> k = m >>= λ _. k

abbrev pub raise_if : {F : Type 0} → Bool → Error → Action F (Unit {0})
raise_if c e p = (if c then err e else ok tt, p)

abbrev pub modify : {F : Type 0} → (PortfolioState F → PortfolioState F) → Action F (Unit {0})
modify g p = (ok tt, g p)
