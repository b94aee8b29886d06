-- ===== src/Kcas/Reading.antt =====
-- `kcas_read` of src/thread/detail/multiword_kcas.cpp.
