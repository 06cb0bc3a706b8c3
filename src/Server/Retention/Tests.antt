-- ===== src/Server/Retention/Tests.antt =====
-- A concrete cleanup (server/services/data-retention.ts): the theorem at inputs of its form.
use kpm_cursor.Base.{[], ltb}
use kpm_cursor.Server.Retention.{Service, Env, initial_policies}

abbrev env : Env
env = record {
  now = 90000000;
  count = λ p. p.retention_days;
  can_audit = λ p. ltb p.retention_days 100;
}

abbrev service : Service
service = record { policies = initial_policies 86400000; audits = []; incidents = [] }
