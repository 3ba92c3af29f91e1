-- ===== src/CodecBoard/Tests.antt =====
-- A run of the codec board on registers that answer what is needed.
use air_born_sonar.Common.{ℕ, ◌+◌, true, false, List, [], ◌∷◌, ◌==◌, if◌then◌else◌}
use air_born_sonar.CodecBus.Register
use air_born_sonar.Speaker.{off, ok, wait_power}
use air_born_sonar.CodecBoard.{BoardIo, Lines, CodecBoard}
use air_born_sonar.CodecBoard.Linked.{Call, begin_call, poll_call, enable_call}

abbrev io : BoardIo ℕ
io = record {
  iic = record {
    read = λ at w. (if at == Register.sr then 0xc0 else 0, w + 1);
    write = λ at value w. w + 1;
  };
  write = λ at value w. w + 1;
  gpio_base = 4096;
  profile_fits = true;
}

abbrev board : CodecBoard
board = record {
  speaker = record {
    config = record {
      powerup_ticks = 10;
      vmid_ticks = 80;
      write_timeout_ticks = 100;
      volume = 127;
    };
    state = off;
    cause = ok;
    phase = wait_power;
    phase_tick = 0;
    token = 0;
    index = 0;
    bus_owned = false;
    output_enabled = false;
    mute_confirmed = false;
  };
  initialized = true;
}

abbrev lines : Lines
lines = record {
  bus = record {
    token = 0;
    bytes = 0 ∷ 0 ∷ [];
    active = false;
    waiting_for_busy = false;
    terminal = false;
    quarantined = false;
  };
  gpio = record { initialized = true; shadow = 0 };
}

abbrev calls : List Call
calls = begin_call 0 ∷ poll_call 10 ∷ poll_call 11 ∷ enable_call true ∷ []
