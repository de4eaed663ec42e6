-- ===== src/Tests/Messages.antt =====
-- The theorems on src/dhcp.c at a concrete configuration.
