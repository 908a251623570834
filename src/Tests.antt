-- ===== src/Tests.antt =====
-- The theorems at concrete inputs.
mod Auth
mod Manager
mod Http
mod Sharing
mod Store
mod Downloader
mod Inputs
mod Password
mod Commands
mod Server
