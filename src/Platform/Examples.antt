-- ===== src/Platform/Examples.antt =====
-- The theorems on the platform at concrete inputs.
mod World
mod HttpCases
mod StackCases
