-- ===== src/Examples.antt =====
-- Concrete inputs: one for each theorem that has parameters or hypotheses.
mod Storage
mod Encoding
mod Pages
mod Floats
mod Definitions
mod Queries
mod Joins
