-- ===== src/Broker/Replays/Conflicts.antt =====
-- Different responses under one key in src/awr/service.py, `submit_response`.
use agent_work_relay.Artifacts.Tables.{Tables}
