-- ===== src/Tests.antt =====
-- The theorems at concrete inputs.
mod RefBase
mod Shared
mod Arrays
mod Pointers
mod Queue
mod StringUtils
mod Others
mod Machines
mod Io
mod Threads
mod Devices
