-- ===== src/Platform/Sweeping.antt =====
-- About the sweep of presence.ts: its loop removes from the end what a filter leaves out.
use convite.Prelude.{List}
