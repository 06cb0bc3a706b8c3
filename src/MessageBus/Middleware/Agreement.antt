-- ===== src/MessageBus/Middleware/Agreement.antt =====
-- The two company checks of message_bus/src/auth: `requireCompanyAccess` on the companies of a token
-- (auth-middleware.ts) and `hasCompanyAccess` on the table (auth-service.ts).
use mathlib.Core.Option
use kpm_cursor.Base.{Option}
