-- ===== src/Tests.antt =====
-- The theorems at concrete inputs, a module for each component.
mod Memory
mod Processes
mod Library
mod Events
mod Turns
mod Texts
mod Kernel
mod Tables
mod Keys
mod Screens
