-- ===== src/WordCount/Main/Ending.antt =====
-- `main` of hw3 comes to one of its ends, also where the table grows or there is no memory.
