-- ===== src/Host/Machine/Held.antt =====
-- What the calls so far hold of the host: a tap, and a file that is open.
use oakberryio.Prelude.{
  ◌≡◌, refl, Bool, true, false, Option, none, some, List, [], ◌∷◌, Text, ◌==◌, text_eq, ==_refl,
  if◌then◌else◌,
}
use oakberryio.Host.{
  Answers, Host, Event, Errno, Call, add_tap, delete_link, open_log, close_log, note,
}

unfoldable pub tap_after : Text → Call → Option Errno → Bool → Bool
tap_after name (add_tap n) none before = if n == name then true else before
tap_after name (delete_link n) none before = if n == name then false else before
tap_after name c r before = before

unfoldable pub log_after : Text → Call → Option Errno → Bool → Bool
log_after path (open_log p) none before = if p == path then true else before
log_after path (close_log p) none before = if p == path then false else before
log_after path c r before = before

-- A tap of this name was added, and has not been deleted since: a deletion that fails leaves it.
unfoldable pub holds_tap : Text → List Event → Bool
unfolding tap_after
holds_tap name [] = false
holds_tap name (e ∷ es) = tap_after name e.call e.error (holds_tap name es)

-- This file was opened, and has not been closed since: a close that fails leaves it.
unfoldable pub holds_log : Text → List Event → Bool
unfolding log_after
holds_log path [] = false
holds_log path (e ∷ es) = log_after path e.call e.error (holds_log path es)

pub record IsFree (tap path : Text) (w : Host) : Type 0 where
  pub tap_free : holds_tap tap w.log ≡ false
  pub log_free : holds_log path w.log ≡ false

unfoldable pub TapFree : Text → Host → Type 0
TapFree tap w = holds_tap tap w.log ≡ false

unfoldable pub LogFree : Text → Host → Type 0
LogFree path w = holds_log path w.log ≡ false

-- The calls that give the tap and the file back succeed, whenever they are made.
pub record GivesBack (h : Answers) (tap path : Text) : Type 0 where
  pub deletes : (w : Host) → h.to w (delete_link tap) ≡ none
  pub closes : (w : Host) → h.to w (close_log path) ≡ none

module _ (h : Answers) where
  -- An addition that fails adds no tap, and a file that is not opened is not open.
  pub tap_refused :
      (tap name : Text) (w : Host) (e : Errno)
      → h.to w (add_tap name) ≡ some e
      → TapFree tap w
      → TapFree tap (note h (add_tap name) w)
  unfolding TapFree note holds_tap tap_after
  tap_refused tap name w e bad p = rw bad p

  pub log_refused :
      (path : Text) (w : Host) (e : Errno)
      → h.to w (open_log path) ≡ some e
      → LogFree path w
      → LogFree path (note h (open_log path) w)
  unfolding LogFree note holds_log log_after
  log_refused path w e bad p = rw bad p

  pub tap_deleted :
      (tap : Text) (w : Host)
      → h.to w (delete_link tap) ≡ none
      → TapFree tap (note h (delete_link tap) w)
  unfolding TapFree note holds_tap tap_after
  tap_deleted tap w fine = rw fine (rw (==_refl tap) refl)

  pub log_closed :
      (path : Text) (w : Host)
      → h.to w (close_log path) ≡ none
      → LogFree path (note h (close_log path) w)
  unfolding LogFree note holds_log log_after
  log_closed path w fine = rw fine (rw (==_refl path) refl)
