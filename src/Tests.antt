-- ===== src/Tests.antt =====
-- Concrete runs of the theorems, by part of the kernel.
mod Screen
mod Pixels
mod Storage
mod Tables
mod Drive
mod Drives
mod Video
mod Line
mod Entry
mod Bus
mod Disks
mod Boot
mod Pages
