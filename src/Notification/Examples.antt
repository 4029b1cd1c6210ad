-- ===== src/Notification/Examples.antt =====
-- Ports that stand on the tables of the repositories, and the theorems at concrete inputs.
mod World
mod DomainCases
mod RepositoryCases
mod ServiceCases
mod RunningCases
mod MailCases
mod TransportCases
mod NotifierCases
