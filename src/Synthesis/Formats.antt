-- ===== src/Synthesis/Formats.antt =====
-- The text formatting of Python that the synthesizers use: `{:+.2f}`, `str` of an int, `{:04d}` and
-- `str` of an exception.
use agora_perp_agent.Prelude.{ℕ, String}
use agora_perp_agent.Prelude.Errors.{Error}

pub record Formats (F : Type 0) : Type 0 where
  pub signed2 : F → String
  pub decimal : ℕ → String
  pub padded4 : ℕ → String
  pub message : Error → String
