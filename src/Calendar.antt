-- ===== src/Calendar.antt =====
-- internal/calendar: when a user is busy.
pub mod FreeBusy
