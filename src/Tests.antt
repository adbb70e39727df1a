-- ===== src/Tests.antt =====
-- A card in memory, and the theorems and functions on concrete data.
mod Card
mod Core
mod Restart
mod Logging
mod Wire
mod Served
mod Sent
mod Scanned
mod ReadBack
mod Survival
mod Started
mod Transmitted
