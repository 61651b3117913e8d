-- ===== src/Checks.antt =====
-- Tests of the model at concrete inputs, and the theorems at inputs that meet their conditions.
mod Codec
mod Freeing
mod Heaps
mod Music
mod Splitting
mod Reading
mod Writing
mod Transferring
mod Partial
mod Playing
mod Threading
mod Commanding
mod Serving
mod Sounding
mod Whole
