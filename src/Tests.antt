-- ===== src/Tests.antt =====
-- Concrete runs of the modelled code.
mod Files
mod Uploads
mod Lists
mod Services
mod Queries
mod Changes
mod Handlers
mod Opening
mod Records
mod Keys
mod Texts
mod Preparation
