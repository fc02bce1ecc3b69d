-- ===== src/Memory/Percent.antt =====
-- The arithmetic of `ram_perc` and `ram_used` in components/ram.c.
