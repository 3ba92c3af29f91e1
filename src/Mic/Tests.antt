-- ===== src/Mic/Tests.antt =====
-- Runs of the microphone capture, with callbacks that succeed and count.
use air_born_sonar.Common.{ℕ, ◌+◌, ◌≡◌, refl, ◌⊎◌, Bool, true, false, List, [], ◌∷◌, arith}
use air_born_sonar.Mic.{
  idle, capturing, ready, fault, ok, MicConfig, MicIo, MicEvent, Mic, bad, init, start, handle,
}
use air_born_sonar.Mic.Capture.{IsValid}
use air_born_sonar.Mic.Ownership.{
  start_call, event_call, IsDone, Call, ProvesIdle, IsSafe, run, capture_run-IsSafe,
}

abbrev config : MicConfig
config = record { bytes = 240000; timeout_ticks = 500; pdm_hz = 2400000 }

abbrev counting : MicIo ℕ
counting = record {
  prepare = λ b s w. (true, w + 1);
  arm = λ b n g w. (true, w + 1);
  trigger = λ w. (true, w + 1);
  finish = λ b s w. (true, w + 1);
  abort = λ w. (true, w + 1);
}

abbrev fresh : Mic
fresh = record bad { config = config; buffer = 4096; cache_span = 240000; state = idle; cause = ok }

abbrev recording : Mic
recording = record fresh { state = capturing; generation = 1; started = 10; dma_owned = true }

abbrev finished : MicEvent
finished = record {
  generation = 1;
  flags = 1;
  bytes = 240000;
  tick = 60;
  overflow_observable = false;
}

init_fresh : init config 4096 240000 ≡ (fresh, true)
unfolding init
init_fresh = refl

starts : start counting fresh 10 0 ≡ (recording, true, 3)
unfolding start
starts = refl

late_event : (handle counting recording finished 510 0).0.state ≡ fault
unfolding handle
late_event = refl

finished-IsDone : IsDone recording finished 61
finished-IsDone = ground arith

abbrev done : Mic
done = record recording { state = ready; dma_owned = false }

fresh-IsValid : IsValid fresh
fresh-IsValid = ground arith

-- A DMA that is busy from a trigger to a finish or an abort.
abbrev dma : MicIo Bool
dma = record {
  prepare = λ b s w. (true, w);
  arm = λ b n g w. (true, w);
  trigger = λ w. (true, true);
  finish = λ b s w. (true, false);
  abort = λ w. (true, false);
}

dma_proves : ProvesIdle dma (λ w. w)
dma_proves = record { prepare = λ b s w h. h; finish = λ b s w h. refl; abort = λ w h. refl }

abbrev calls : List Call
calls = start_call 10 ∷ event_call finished 61 ∷ []

becomes_ready : (run dma calls (fresh, false)).0.state ≡ ready
unfolding start handle
becomes_ready = refl

capture_run-IsSafe_example :
    let (c', w') = run dma calls (fresh, false) in
    IsSafe dma (λ w. w) dma_proves (c', w') × ((c'.state ≡ idle) ⊎ (c'.state ≡ ready) → w' ≡ false)
capture_run-IsSafe_example =
    capture_run-IsSafe dma (λ w. w) dma_proves calls fresh false (fresh-IsValid, λ h. refl)
