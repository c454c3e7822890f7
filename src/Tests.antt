-- ===== src/Tests.antt =====
-- Runs of the model on small frames, and each theorem of the library at an input that meets its
-- hypotheses.
mod Frames
mod Extended
mod Packets
mod Layers
mod Sums
mod Captures
mod Disks
mod Limits
mod Listings
mod Runs
