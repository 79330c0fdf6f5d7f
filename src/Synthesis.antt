-- ===== src/Synthesis.antt =====
-- core/synthesis.py: the deterministic synthesizer, and the reading of the language model's answer.
pub mod Formats
pub mod Rule
pub mod Shape
pub mod Answer
pub mod Parsed
