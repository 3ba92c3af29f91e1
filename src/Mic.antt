-- ===== src/Mic.antt =====
-- firmware/src/sonar_mic.c: one microphone capture by DMA.
-- The callbacks of `sonar_mic_io_t` act on a world `W`, which each call passes on.
pub mod Capture
pub mod Ownership
mod Tests
use Prim.Native.String.{String}
use air_born_sonar.Common.{
  ℕ, ◌+◌, ◌-◌, ◌*◌, ◌/◌, ◌%◌, Bool, true, false, not, ◌&&◌, ◌||◌, Option, none, some, if◌then◌else◌,
  ◌==◌, ltb, leb, u32, i32_max, sub32, has_bit,
}

abbrev pub cache_line : ℕ
cache_line = 32

abbrev pub max_dma_bytes : ℕ
max_dma_bytes = 0x03ffffff

pub data MicState : Type 0 where
  idle capturing ready fault : MicState

pub data MicFault : Type 0 where
  ok bad_config prepare_failed arm_failed trigger_failed dma_error : MicFault
  overflow bad_length timeout finish_failed cancelled : MicFault

-- `sonar_mic_config_t`
pub record MicConfig : Type 0 where
  pub bytes : ℕ
  pub timeout_ticks : ℕ
  pub pdm_hz : ℕ

-- `sonar_mic_io_t`; a buffer is its address.
pub record MicIo (W : Type 0) : Type 0 where
  pub prepare : ℕ → ℕ → W → Bool × W
  pub arm : ℕ → ℕ → ℕ → W → Bool × W
  pub trigger : W → Bool × W
  pub finish : ℕ → ℕ → W → Bool × W
  pub abort : W → Bool × W

-- `sonar_mic_event_t`
pub record MicEvent : Type 0 where
  pub generation : ℕ
  pub flags : ℕ
  pub bytes : ℕ
  pub tick : ℕ
  pub overflow_observable : Bool

-- `sonar_mic_frame_t`
pub record MicFrame : Type 0 where
  pub address : ℕ
  pub bytes : ℕ
  pub generation : ℕ
  pub request_tick : ℕ
  pub completion_tick : ℕ
  pub pdm_hz : ℕ
  pub overflow_checked : Bool

-- `sonar_mic_t`; its `io` member is the parameter of the operations.
pub record Mic : Type 0 where
  pub state : MicState
  pub cause : MicFault  -- the member `fault`
  pub config : MicConfig
  pub buffer : ℕ
  pub cache_span : ℕ
  pub generation : ℕ
  pub started : ℕ
  pub completed : ℕ
  pub dma_owned : Bool
  pub overflow_checked : Bool

abbrev pub zero_config : MicConfig
zero_config = record { bytes = 0; timeout_ticks = 0; pdm_hz = 0 }

abbrev pub bad : Mic
bad = record {
  state = fault;
  cause = bad_config;
  config = zero_config;
  buffer = 0;
  cache_span = 0;
  generation = 0;
  started = 0;
  completed = 0;
  dma_owned = false;
  overflow_checked = false;
}

-- `(bytes + LINE - 1U) & ~(LINE - 1U)`: the next multiple of the line, on `uint32_t`.
abbrev pub span_of : ℕ → ℕ
span_of bytes = u32 (bytes + (cache_line - 1)) / cache_line * cache_line

-- A null buffer is the address 0.
unfoldable pub init : MicConfig → ℕ → ℕ → Mic × Bool
init config buffer capacity =
    if buffer == 0
      || config.bytes == 0
      || ltb max_dma_bytes config.bytes
      || not (config.bytes % 4 == 0)
      || config.timeout_ticks == 0
      || ltb i32_max config.timeout_ticks
      || config.pdm_hz == 0
      || not (buffer % cache_line == 0)
    then (bad, false)
    else if ltb capacity (span_of config.bytes)
    then (bad, false)
    else (
      record bad {
        config = config;
        buffer = buffer;
        cache_span = span_of config.bytes;
        state = idle;
        cause = ok;
      },
      true,
    )

abbrev pub is_idle : MicState → Bool
is_idle idle = true
is_idle _ = false

abbrev pub is_capturing : MicState → Bool
is_capturing capturing = true
is_capturing _ = false

abbrev pub is_ready : MicState → Bool
is_ready ready = true
is_ready _ = false

abbrev pub is_fault : MicState → Bool
is_fault fault = true
is_fault _ = false

module _ {W : Type 0} (io : MicIo W) where
  pub fail : Mic → MicFault → W → Mic × W
  fail c why w =
      if is_fault c.state
      then (c, w)
      else if c.dma_owned
      then (record c { state = fault; cause = why; dma_owned = not (io.abort w).0 }, (io.abort w).1)
      else (record c { state = fault; cause = why }, w)

  trigger_capture : Mic → W → Mic × Bool × W
  unfolding fail
  trigger_capture c w =
      let (triggered, w') = io.trigger w in
      if triggered
      then (c, true, w')
      else ((fail c trigger_failed w').0, false, (fail c trigger_failed w').1)

  arm_capture : Mic → W → Mic × Bool × W
  unfolding trigger_capture
  arm_capture c w =
      let (armed, w') = io.arm c.buffer c.config.bytes c.generation w in
      if armed
      then trigger_capture c w'
      else ((fail c arm_failed w').0, false, (fail c arm_failed w').1)

  unfoldable pub start : Mic → ℕ → W → Mic × Bool × W
  unfolding arm_capture trigger_capture fail
  start c₀ now w =
      if not (is_idle c₀.state)
      then (c₀, false, w)
      else let c = record c₀ {
        started = now;
        overflow_checked = false;
        generation = u32 (c₀.generation + 1);
      } in
        let (prepared, w') = io.prepare c.buffer c.cache_span w in
        if prepared
        then arm_capture (record c { state = capturing; dma_owned = true }) w'
        else ((fail c prepare_failed w').0, false, (fail c prepare_failed w').1)

  finish_capture : Mic → MicEvent → W → Mic × W
  finish_capture c event w =
      let (finished, w') = io.finish c.buffer c.cache_span w in
      if finished
      then (
        record c {
          dma_owned = false;
          completed = event.tick;
          overflow_checked = event.overflow_observable;
          state = ready;
        },
        w',
      )
      else fail c finish_failed w'

  -- `sonar_mic_event`
  unfoldable pub handle : Mic → MicEvent → ℕ → W → Mic × W
  unfolding finish_capture fail
  handle c event now w =
      if not (is_capturing c.state) || not (event.generation == c.generation)
      then (c, w)
      else if has_bit event.flags 1
      then fail c dma_error w
      else if has_bit event.flags 2
      then fail c overflow w
      else if not (has_bit event.flags 0)
      then (c, w)
      else if leb c.config.timeout_ticks (sub32 now c.started)
          || leb c.config.timeout_ticks (sub32 event.tick c.started)
          || ltb i32_max (sub32 now event.tick)
      then fail c timeout w
      else if not (event.bytes == c.config.bytes)
      then fail c bad_length w
      else finish_capture c event w

  unfoldable pub poll : Mic → ℕ → W → Mic × W
  unfolding fail
  poll c now w =
      if is_capturing c.state && leb c.config.timeout_ticks (sub32 now c.started)
      then fail c timeout w
      else (c, w)

  unfoldable pub cancel : Mic → W → Mic × W
  unfolding fail
  cancel c w = if is_capturing c.state then fail c cancelled w else (c, w)

-- `none` is the refusal.
unfoldable pub frame : Mic → Option MicFrame
frame c =
    if not (is_ready c.state) || c.dma_owned
    then none
    else some record {
      address = c.buffer;
      bytes = c.config.bytes;
      generation = c.generation;
      request_tick = c.started;
      completion_tick = c.completed;
      pdm_hz = c.config.pdm_hz;
      overflow_checked = c.overflow_checked;
    }

unfoldable pub release : Mic → Mic × Bool
release c =
    if not (is_ready c.state) || c.dma_owned then (c, false) else (record c { state = idle }, true)

-- `sonar_mic_fault_name`
pub fault_name : MicFault → String
fault_name ok = "OK"
fault_name bad_config = "CONFIG"
fault_name prepare_failed = "PREPARE"
fault_name arm_failed = "DMA_ARM"
fault_name trigger_failed = "TRIGGER"
fault_name dma_error = "DMA_ERROR"
fault_name overflow = "PL_OVERFLOW"
fault_name bad_length = "FRAME_LENGTH"
fault_name timeout = "TIMEOUT"
fault_name finish_failed = "DMA_FINISH"
fault_name cancelled = "CANCELLED"
