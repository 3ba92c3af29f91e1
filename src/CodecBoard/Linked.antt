-- ===== src/CodecBoard/Linked.antt =====
-- The write that the codec service waits for is the one on the bus, in firmware/src/sonar_codec_board.c.
use air_born_sonar.Common.{ℕ, ◌≡◌, Bool, true, List, [], ◌∷◌, Option, none, some, arith}
use air_born_sonar.CodecBus.{CodecBus}
use air_born_sonar.CodecBus as Bus
use air_born_sonar.Speaker.{Speaker, configuring, wait_ack}
use air_born_sonar.Speaker as S
use air_born_sonar.CodecBoard.{
  BoardIo, Lines, CodecBoard, init, init_lines, init_speaker, begin, poll, enable,
}

-- While the service waits for an acknowledgement, its write is on the bus, under its token.
abbrev pub IsLinked : Speaker → CodecBus → Type 0
IsLinked s bus =
    s.state ≡ configuring → s.phase ≡ wait_ack → (bus.active ≡ true) × (bus.token ≡ s.token)

module _ {W : Type 0} (io : BoardIo W) where
  abbrev Links : Speaker × (Lines × W) → Type 0
  Links (s, (l, w)) = IsLinked s l.bus

  init_lines-IsLinked :
      (c : Option S.SpeakerConfig) (b : CodecBoard) (l : Lines) (w : W)
      → let (ok, (b', (l', w'))) = init_lines io c b (l, w) in
        ok ≡ true → IsLinked b'.speaker l'.bus
  unfolding init_lines init_speaker S.init
  init_lines-IsLinked none b l w = ground arith
  init_lines-IsLinked (some c) b l w = ground arith

  -- An accepted start-up leaves the two in agreement.
  pub init-IsLinked :
      (tick_hz : ℕ) (b : CodecBoard) (l : Lines) (w : W)
      → let (ok, (b', (l', w'))) = init io tick_hz b (l, w) in
        ok ≡ true → IsLinked b'.speaker l'.bus
  unfolding init
  init-IsLinked tick_hz b l w = ground (arith, init_lines-IsLinked (S.default_config tick_hz) b l w)

pub data Call : Type 0 where
  begin_call poll_call : ℕ → Call
  enable_call : Bool → Call

module _ {W : Type 0} (io : BoardIo W) where
  abbrev pub step : Call → CodecBoard × (Lines × W) → CodecBoard × (Lines × W)
  step (begin_call now) (b, l) = (begin io now b l).1
  step (poll_call now) (b, l) = poll io now b l
  step (enable_call on) (b, l) = (enable io on b l).1

  abbrev pub run : List Call → CodecBoard × (Lines × W) → CodecBoard × (Lines × W)
  run [] s = s
  run (c ∷ cs) s = run cs (step c s)
