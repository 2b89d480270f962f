-- ===== src/Agents/SqlQuery/Raises.antt =====
-- What the tool comes to on a database that takes no parameters in a SET.
