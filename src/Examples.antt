-- ===== src/Examples.antt =====
-- Tests on concrete inputs, and the theorems applied where their hypotheses hold.
mod Statuses
mod Log
mod Threads
mod Bodies
mod Deals
mod Opex
mod Links
mod Figures
mod Simulated
mod Paged
mod Saved
mod Repriced
mod Updated
mod Lists
