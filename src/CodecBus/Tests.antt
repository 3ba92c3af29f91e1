-- ===== src/CodecBus/Tests.antt =====
-- A write on a controller whose registers answer what is needed.
use air_born_sonar.Common.{
  ℕ, ◌+◌, ◌≡◌, refl, true, false, some, [], ◌∷◌, arith, ◌==◌, if◌then◌else◌,
}
use air_born_sonar.CodecBus.{BusIo, CodecBus, event}
use air_born_sonar.CodecBus.Register
use air_born_sonar.CodecBus.Answers.{IsValid}

-- The status is 0xc0 always; the interrupts are those of a transfer that ended.
abbrev io : BusIo ℕ
io = record {
  read = λ at w. (if at == Register.sr then 0xc0 else 0x10, w + 1);
  write = λ at value w. w + 1;
}

abbrev sent : CodecBus
sent = record {
  token = 3;
  bytes = 0x1e ∷ 0 ∷ [];
  active = true;
  waiting_for_busy = false;
  terminal = false;
  quarantined = false;
}

sent-IsValid : IsValid sent
sent-IsValid = ground arith

answered_event : (event io (sent, 0)).0 ≡ some (record { token = 3; acknowledged = true })
unfolding event
answered_event = refl
