-- ===== src/Identity/Examples.antt =====
-- The theorems on modules/identity at concrete inputs.
mod World
mod TokenCases
mod UseCases
mod CodeCases
mod JwtCases
mod TransportCases
