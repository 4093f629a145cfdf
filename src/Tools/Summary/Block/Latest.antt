-- ===== src/Tools/Summary/Block/Latest.antt =====
-- Which summary of a capture counts (src/tools.cpp `parse_test_summary_impl`).
