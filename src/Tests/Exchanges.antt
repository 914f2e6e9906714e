-- ===== src/Tests/Exchanges.antt =====
-- The theorem on a whole handshake, between two agents of the toy host whose clocks read 5 to 8.
use atel_sdk.Base.{ℕ, ◌≡◌, refl, ap, String, Option, some, arith}
use atel_sdk.Handshake.Steps.{Draws}
use atel_sdk.Handshake.Meeting.{Meets, Exchanged}
use atel_sdk.Handshake.Exchange.{handshake_completes}
use atel_sdk.Tests.{toy, toy_identity-IsSound, letters, letter_count, letters_round}
use atel_sdk.Tests.Handshakes.{plain, draws, manager}

abbrev read : String → Option ℕ
read s = some (letter_count s)

read_round : (t : ℕ) → read (letters t) ≡ some t
read_round t = ap some (letters_round t)

abbrev drawn_at : ℕ → Draws plain
drawn_at t = record draws { now = t }

meets :
    Meets toy plain read letters read_round manager manager
      (drawn_at 5)
      (drawn_at 6)
      (drawn_at 7)
      (drawn_at 8)
meets = record {
  opens = record { ready = (refl, refl, refl); sound = toy_identity-IsSound; on = refl };
  answers = record { ready = (refl, refl, refl); sound = toy_identity-IsSound; on = refl };
  closes = record { ready = (refl, refl, refl); sound = toy_identity-IsSound; on = refl };
  init_arrives = (omega arith, omega arith);
  ack_arrives = (omega arith, omega arith);
  confirm_arrives = (omega arith, omega arith);
  first_challenge = refl;
  second_challenge = refl;
  own_secret = refl;
  other_secret = refl;
  spare_secret = refl;
}

handshake_completes_example :
    Exchanged toy plain read letters read_round manager manager
      (drawn_at 5)
      (drawn_at 6)
      (drawn_at 7)
      (drawn_at 8)
handshake_completes_example =
    handshake_completes toy plain read letters read_round manager manager (drawn_at 5) (drawn_at 6)
      (drawn_at 7) (drawn_at 8) meets
