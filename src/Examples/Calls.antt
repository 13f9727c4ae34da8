-- ===== src/Examples/Calls.antt =====
-- Runs of src/app/mod.rs. A frame is its bytes, and a node notes what it sends.
use neonet.Base.{◌≡◌, refl, some, List, [], ◌∷◌, list_eq, nat_eq}
use neonet.Base.Results.{Io, ok}
use neonet.Base.Text.{Bytes}
use neonet.Messaging.{Message}
use neonet.Client.{call, pump}
use neonet.Client.Answers.{answers, first_with, in_use, call_answered}
use neonet.Examples.Serial.{write_message}
use neonet.Examples.Wire.{alice, bob, carol, letter}

abbrev send_raw : Message → List Message → Io (Unit {0}) × List Message
send_raw m sent = (ok tt, m ∷ sent)

-- Carol's letter bears the id of alice's request to bob, and comes before bob's.
abbrev inbox : List Message
inbox = letter 8 bob alice ∷ letter 9 carol alice ∷ letter 9 bob alice ∷ []

call_answered_example :
    let (called, waiting, sent) =
      call {Frame = Bytes}
        (λ b. some b)
        (λ m. some (write_message m))
        send_raw
        alice
        (9 ∷ [])
        1
        bob
        (4 ∷ [])
        ((8 ∷ [], 0) ∷ [])
        [] in
    answers 1 (pump inbox waiting).0 ≡ letter 9 carol alice ∷ []
unfolding in_use call first_with
call_answered_example =
    call_answered (λ b. some b) (λ m. some (write_message m)) send_raw alice (9 ∷ []) 1 bob (4 ∷ [])
      ((8 ∷ [], 0) ∷ []) [] (9 ∷ []) inbox refl refl
