-- ===== src/Rules/Tick/Missed.antt =====
-- src/features/rules.c, `fire` and `retire_rule`: the alarm of a rule that watches all of its instances at
-- once.
