-- ===== src/ControlServer/Tests.antt =====
-- Requests of a connection that ends, and one that comes too late.
use air_born_sonar.Common.{ℕ, ◌+◌, ◌≡◌, refl, true, false, some, [], arith}
use air_born_sonar.ControlProtocol.Op
use air_born_sonar.WavParser.{TxBram}
use air_born_sonar.WaveformUpload
use air_born_sonar.ControlService.{Chirp, Service, zeroed}
use air_born_sonar.ControlService.Settings.{IsSettled}
use air_born_sonar.ControlServer.{Queues, Request, control_poll}
use air_born_sonar.ControlServer.Answers.{control_poll_ends}

abbrev bram : TxBram ℕ
bram = record { capacity = 4704; init = λ w. (true, w); write = λ pair packed w. (true, w + 1) }

abbrev chirp : Chirp ℕ
chirp = record { capabilities = λ w. 3; status = λ w. 0; apply = λ config values w. (true, w + 1) }

abbrev ending : Request
ending = record { token = 5; session = 7; opcode = Op.end_session; payload = []; submitted = 10 }

abbrev queues : Queues ℕ
queues = record {
  receive = λ w. (some ending, w + 1);
  send = λ r w. (false, w + 1);
  discard = λ w. w + 1;
  ticks = λ w. (w, w + 1);
  rpc_ticks = 2000;
}

abbrev uploading : Service
uploading = record zeroed {
  staged = true;
  owner = 7;
  upload = record WaveformUpload.zeroed { uploading = true };
}

uploading-IsSettled : IsSettled 4704 uploading
uploading-IsSettled = ground arith

control_poll_ends_example :
    let s' = (control_poll queues bram chirp false uploading 90000).0 in
    (s'.owner ≡ 0)
    × (s'.staged ≡ false)
    × (s'.upload.uploading ≡ false)
    × (s'.active ≡ uploading.active)
control_poll_ends_example =
    control_poll_ends queues bram chirp false uploading 90000 ending refl refl refl
