-- ===== src/Float.antt =====
-- Python floats, as the program uses them: an interface of operations, the operators and
-- built-ins that Python derives from them, and (in `Float/Laws.antt`) laws of IEEE doubles.
pub mod Ops
pub mod Laws
pub mod Fixed
