-- ===== src/Lobby/Channel.antt =====
-- src/app/lobby.rs, `handle_channel`: private text, logged under its sender's name.
use neonet.Base.{none, some, ℕ, List, [], ◌∷◌, ◌++◌, ◌≡◌, ◌⊎◌, inl, inr, refl}
use neonet.Base.Results.{Io, ok, err}
use neonet.Base.Text.{Bytes, Text}
use neonet.Identity.{PublicIdentity, fingerprint}
use neonet.Lobby.{LogLine, slug, Append, appended, refused, cut, append_log}

pub data ChannelFrame : Type 0 where
  send_text : Text → ChannelFrame
  ack : ℕ → ChannelFrame

pub data ChannelNotice : Type 0 where
  said : Text → Text → ChannelNotice
  acked : ℕ → ChannelNotice

module _ (hex_hash : Bytes → Text) where
  -- `append_channel`; `disk` is what the system does on the append.
  append_channel : Append → Text → Text → List LogLine → Io (Unit {0}) × List LogLine
  unfolding append_log
  append_channel disk sender text logs = append_log disk (slug sender) sender text logs

  acknowledge :
      Io (Unit {0}) × List LogLine
      → ℕ
      → Text
      → Text
      → Io ChannelNotice × List ChannelFrame × List LogLine
  acknowledge (ok u, logs) at sender text = (ok (said sender text), ack at ∷ [], logs)
  acknowledge (err e, logs) at sender text = (err e, [], logs)

  -- `handle_channel`: the notice, the frames sent back, and the logs of the directory `channel`.
  unfoldable pub handle_channel :
      Append
      → ℕ
      → PublicIdentity
      → ChannelFrame
      → List LogLine
      → Io ChannelNotice × List ChannelFrame × List LogLine
  unfolding append_channel acknowledge
  handle_channel disk at sender (send_text text) logs =
      let name = fingerprint hex_hash sender in
      acknowledge (append_channel disk name text logs) at name text
  handle_channel disk at sender (ack time) logs = (ok (acked time), [], logs)

  -- An acknowledgement goes out just for a text that was logged whole, as the last line and under
  -- the sender's fingerprint; otherwise the logs are as they were, or a part of such a line is left.
  pub handle_channel_logs :
      (disk : Append) (at : ℕ) (sender : PublicIdentity) (frame : ChannelFrame)
      (logs : List LogLine)
      → let (res, replies, logs') = handle_channel disk at sender frame logs in
        ((replies ≡ []) × (logs' ≡ logs))
        ⊎ ((line : LogLine) × (line.sender ≡ fingerprint hex_hash sender)
            × (replies ≡ (elim line.written [ none ↦ ack at ∷ [] | some n ↦ [] ]))
            × (logs' ≡ logs ++ line ∷ []))
  unfolding handle_channel append_log
  handle_channel_logs appended at sender (send_text text) logs = inr (_, refl, refl, refl)
  handle_channel_logs (cut n) at sender (send_text text) logs = inr (_, refl, refl, refl)
  handle_channel_logs refused at sender (send_text text) logs = inl (refl, refl)
  handle_channel_logs disk at sender (ack time) logs = inl (refl, refl)
