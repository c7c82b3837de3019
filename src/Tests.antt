-- ===== src/Tests.antt =====
-- Concrete runs of the code, and each theorem at concrete arguments.
mod Local
mod Wire
mod Frames
mod Sending
mod Threads
mod Boot
mod Noise
