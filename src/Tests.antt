-- ===== src/Tests.antt =====
-- Concrete runs of the model: the data they use, and each theorem at one of them.
pub mod Data
mod Assets
mod Disputes
mod Listings
mod Effects
mod Guards
mod LifeCycle
mod Creation
mod Accounts
mod Transfers
mod Webhook
