-- ===== src/Net.antt =====
-- IPv4 addresses as package net reads and prints them, and the 32-bit form of store.go.
pub mod Ip
