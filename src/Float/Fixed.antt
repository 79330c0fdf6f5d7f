-- ===== src/Float/Fixed.antt =====
-- A float arithmetic that runs and obeys the laws: decimal fixed point, twelve digits after the
-- point, rounded toward zero. It shows that the laws can be met, and it is what the tests and
-- examples compute with; the program's own floats are IEEE doubles.
mod Scale
mod Number
mod Lawful
unfoldable pub use Number.*
pub use Lawful.{fixed-IsLawful}
