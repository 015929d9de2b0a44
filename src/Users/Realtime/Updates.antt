-- ===== src/Users/Realtime/Updates.antt =====
-- The delays of the reconnection, and who hears of a change.
use go_platform_starter.Prelude.{
  ℕ, zero, suc, ◌+◌, ◌*◌, min, true, false, none, some, ◌≡◌, refl, arith, if◌then◌else◌, Text,
  codes, text_same, is_empty,
}
use go_platform_starter.Users.Realtime.{
  Payload, Frame, Live, backoff, on_open, on_close, dispose, on_message, broadcast,
}

-- `n` closed connections in a row, none of which opened.
abbrev pub closes : ℕ → Live → Live
closes zero l = l
closes (suc n) l = on_close (closes n l)

closes-attempts :
    (n : ℕ) (l : Live)
    → l.disposed ≡ false
    → ((closes n l).attempts ≡ l.attempts + n) × ((closes n l).disposed ≡ false)
unfolding on_close
closes-attempts zero l h = (ground arith, h)
closes-attempts (suc n) l h = let (a, b) = closes-attempts n l h in (ground arith, ground arith)

-- Each delay is twice the one before, up to thirty seconds.
backoff-suc : (n : ℕ) → backoff (suc n) ≡ min 30000 (2 * backoff n)
unfolding backoff
backoff-suc zero = refl
backoff-suc (suc zero) = refl
backoff-suc (suc (suc zero)) = refl
backoff-suc (suc (suc (suc zero))) = refl
backoff-suc (suc (suc (suc (suc zero)))) = refl
backoff-suc (suc (suc (suc (suc (suc n))))) =
    let full : min (suc (suc (suc (suc (suc n))))) 5 ≡ 5 = omega arith in
    let more : min (suc (suc (suc (suc (suc (suc n)))))) 5 ≡ 5 = omega arith in rw (full, more) refl

-- Since a connection opened, the first attempt to connect again comes after a second; each further one
-- waits twice as long as the one before, up to thirty seconds, and the waiting never grows beyond that.
closes-retry_in :
    (n : ℕ) (l : Live)
    → l.disposed ≡ false
    → ((closes (suc n) (on_open l)).retry_in ≡ some (backoff n))
      × (backoff zero ≡ 1000)
      × (backoff (suc n) ≡ min 30000 (2 * backoff n))
unfolding on_close on_open
closes-retry_in n l h =
    let (a, b) = closes-attempts n (on_open l) h in
    (ground arith, unfold backoff in refl, backoff-suc n)

-- A disposed hook never connects again: the timer is off and no closing sets it.
dispose-retry_in :
    (n : ℕ) (l : Live)
    → ((closes n (dispose l)).retry_in ≡ none) × ((closes n (dispose l)).disposed ≡ true)
unfolding dispose on_close
dispose-retry_in zero l = (refl, refl)
dispose-retry_in (suc n) l = let (a, b) = dispose-retry_in n l in (ground arith, ground arith)

-- The frame in which the server passes on a text of the room.
abbrev pub room_frame : Text → Payload → Frame
room_frame text p = record { type = some (codes "message"); text = some text; payload = some p }

-- What one client broadcasts makes exactly the others load the directory again: the client itself
-- ignores it, and every client with another id counts one more invalidation.
on_message-broadcast :
    (me you action text : Text) (p : Payload) (l : Live)
    → broadcast me true action ≡ some p
    → is_empty text ≡ false
    → (on_message you (some (room_frame text p)) l).invalidations
      ≡ (if text_same me you then l.invalidations else suc l.invalidations)
unfolding on_message broadcast
on_message-broadcast me you action text p l h k = ground arith
