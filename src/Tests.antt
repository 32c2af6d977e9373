-- ===== src/Tests.antt =====
-- Runs of the definitions at concrete inputs, and each theorem at one.
mod Text
mod Access
mod Lists
mod Maps
mod Graphs
mod Batches
mod Ibfs
mod Texts
mod Collections
mod Trees
mod Archives
