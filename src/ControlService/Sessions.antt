-- ===== src/ControlService/Sessions.antt =====
-- Who may change the settings of firmware/src/sonar_control_service.c, and when.
use air_born_sonar.Common.{ℕ, ◌≡◌, ◌≢◌, ◌⊎◌, Bool, true, List, arith}
use air_born_sonar.ControlProtocol.Op
use air_born_sonar.ControlProtocol.Reply
use air_born_sonar.WavParser.{TxBram}
use air_born_sonar.ControlService.{Chirp, Service, end_session, command}

-- A command of a session that is not the owner, while some session is, changes nothing: neither the
-- settings nor the upload, the identities or the hardware.
command_owner :
    {W : Type 0} (bram : TxBram W) (chirp : Chirp W) (s : Service) (session op : ℕ) (p : List ℕ)
    (mutable : Bool) (w : W)
    → s.owner ≢ 0
    → session ≢ s.owner
    → ((command bram chirp s session op p mutable w).0 ≡ s)
      × ((command bram chirp s session op p mutable w).2 ≡ w)
unfolding command end_session
command_owner bram chirp s session op p mutable w o n = ground arith

-- While an experiment runs, a command touches no hardware. It changes nothing, and is refused as busy
-- if it is not one of the two queries, but for the end of a session, which is accepted and leaves the
-- active settings, their values and validity, and the identities.
pub command_running :
    {W : Type 0} (bram : TxBram W) (chirp : Chirp W) (s : Service) (session op : ℕ) (p : List ℕ)
    (mutable : Bool) (w : W)
    → s.running ≡ true
    → let (s', error, w') = command bram chirp s session op p mutable w in
      (w' ≡ w)
      × (((s' ≡ s)
            × ((error ≡ Reply.busy) ⊎ (op ≡ Op.get_capabilities) ⊎ (op ≡ Op.get_configuration)))
          ⊎ (op ≡ Op.end_session)
            × (error ≡ Reply.ok)
            × (s'.active ≡ s.active)
            × (s'.values ≡ s.values)
            × (s'.valid ≡ s.valid)
            × (s'.running ≡ true)
            × (s'.identity ≡ s.identity))
unfolding command end_session
command_running bram chirp s session op p mutable w r = ground arith
