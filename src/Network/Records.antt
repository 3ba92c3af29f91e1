-- ===== src/Network/Records.antt =====
-- What a record of firmware/src/sonar_ethernet.c puts on the wire, and what acknowledges it.
use air_born_sonar.Common.{
  ℕ, ◌≡◌, refl, sym, ap, ◌∙◌, Bool, true, false, List, [], ◌++◌, Option, none, some, arith, ◌&&◌,
  replicate,
}
use mathlib.Core.List.{append_assoc, append-nil}
use air_born_sonar.Identity.{same_words}
use air_born_sonar.Identity.Session.{same_words→eq}
use air_born_sonar.Frames.{Frames, FrameMeta, slot_at}
use air_born_sonar.Socket.{Transferred, done, closed, failure, timeout, is_done, SocketStatus}
use air_born_sonar.Socket.Streams.{KeepsOrder, transfer_sends, transfer_receives}
use air_born_sonar.Network.{
  NetIo, Content, header_of, expected_ack, slot_record, empty_record, discovery_poll, net_transfer,
  read_ack, send_part, compare_ack, when_sent, send_content, send_wav, send_record,
}

is_done→eq : (s : SocketStatus) → is_done s ≡ true → s ≡ done
is_done→eq done h = refl
is_done→eq closed h = cc
is_done→eq failure h = cc
is_done→eq timeout h = cc

both : (a b : Bool) → a && b ≡ true → (a ≡ true) × (b ≡ true)
both a b h = ground arith

abbrev pub wav_record : FrameMeta → Option (List ℕ) → Option Content
wav_record m none = none
wav_record m (some payload) = some (slot_record m payload)

module _ {W : Type 0} (io : NetIo W) (sent incoming : W → List ℕ)
    (order : KeepsOrder io.socket (discovery_poll io) sent incoming) where
  -- From `w` to `w'`, `out` was put on the wire and `answer` came in, and nothing else.
  abbrev pub Exchanged : List ℕ → List ℕ → W → W → Type 0
  Exchanged out back w w' = (sent w' ≡ sent w ++ out) × (incoming w ≡ back ++ incoming w')

  -- What is asked of a step of a record that may succeed.
  abbrev Exchanges : List ℕ → List ℕ → (W → Option (Bool × W)) → Type 0
  Exchanges out back f = (w w' : W) → f w ≡ some (true, w') → Exchanged out back w w'

  compare_ack-Exchanges :
      (fuel began : ℕ) (header : List ℕ) (w w' : W) (x : Option (Transferred W))
      → net_transfer io fuel false began (replicate 12 0) w ≡ x
      → compare_ack header x ≡ some (true, w')
      → Exchanged [] (expected_ack header) w w'
  compare_ack-Exchanges fuel began header w w' none t e = cc
  compare_ack-Exchanges fuel began header w w' (some r) t e =
      let (i, l, s, d) =
        transfer_receives io.socket (discovery_poll io) sent incoming order fuel began io.deadline
          (replicate 12 0) w r t in
      let good : (is_done r.status && same_words r.bytes (expected_ack header) ≡ true)
          × (r.world ≡ w') =
        ground arith in
      let (finished, same) =
        both (is_done r.status) (same_words r.bytes (expected_ack header)) good.0 in
      (
        ap sent (sym good.1) ∙ s ∙ sym (append-nil (sent w)),
        d (is_done→eq r.status finished)
            ∙ ap (λ x. x ++ incoming r.world) (same_words→eq r.bytes (expected_ack header) same)
            ∙ ap (λ v. expected_ack header ++ incoming v) good.1,
      )

  when_sent_lem :
      (rest : W → Option (Bool × W)) (r : Transferred W) (w' : W)
      → when_sent rest (some r) ≡ some (true, w')
      → (is_done r.status ≡ true) × (rest r.world ≡ some (true, w'))
  when_sent_lem rest r w' e = ground arith

  when_sent-Exchanges :
      (fuel began : ℕ) (bytes out back : List ℕ) (rest : W → Option (Bool × W)) (w w' : W)
      (x : Option (Transferred W))
      → Exchanges out back rest
      → net_transfer io fuel true began bytes w ≡ x
      → when_sent rest x ≡ some (true, w')
      → Exchanged (bytes ++ out) back w w'
  when_sent-Exchanges fuel began bytes out back rest w w' none k t e = cc
  when_sent-Exchanges fuel began bytes out back rest w w' (some r) k t e =
      let (s, l, i, d) =
        transfer_sends io.socket (discovery_poll io) sent incoming order fuel began io.deadline
          bytes w r t in
      let (finished, f) = when_sent_lem rest r w' e in
      let (out_sent, came) = k r.world w' f in
      (
        out_sent
            ∙ ap (λ x. x ++ out) (d (is_done→eq r.status finished))
            ∙ append_assoc (sent w) bytes out,
        sym i ∙ came,
      )

  ack-Exchanges :
      (fuel began : ℕ) (header : List ℕ)
      → Exchanges [] (expected_ack header) (read_ack io fuel began header)
  ack-Exchanges fuel began header w w' e = compare_ack-Exchanges fuel began header w w' _ refl e

  part-Exchanges :
      (fuel began : ℕ) (bytes out back : List ℕ) (rest : W → Option (Bool × W))
      → Exchanges out back rest
      → Exchanges (bytes ++ out) back (send_part io fuel began bytes rest)
  part-Exchanges fuel began bytes out back rest k w w' e =
      when_sent-Exchanges fuel began bytes out back rest w w' _ k refl e

  -- With the last part of what goes out written without its empty end.
  all_of :
      (out back : List ℕ) (f : W → Option (Bool × W))
      → Exchanges (out ++ []) back f
      → Exchanges out back f
  all_of out back f k w w' e =
      let (s, i) = k w w' e in (s ∙ ap (λ z. sent w ++ z) (append-nil out), i)

  after_clock :
      (fuel : ℕ) (c : Content) (rest : ℕ → W → Option (Bool × W))
      → ((began : ℕ) → Exchanges c.payload (expected_ack (header_of c)) (rest began))
      → Exchanges (header_of c ++ c.payload) (expected_ack (header_of c)) (λ w.
        let (began, w₁) = io.socket.ticks w in
        send_part io fuel began (header_of c) (rest began) w₁)
  after_clock fuel c rest k w w' e =
      let (began, w₁) = io.socket.ticks w in
      let (s, i) = order.ticks w in
      let (s', i') =
        part-Exchanges fuel began (header_of c) c.payload (expected_ack (header_of c)) (rest began)
          (k began) w₁ w' e in
      (s' ∙ ap (λ x. x ++ (header_of c ++ c.payload)) s, sym i ∙ i')

  send_content-Exchanges :
      (fuel : ℕ) (has_slot : Bool) (c : Content)
      → (has_slot ≡ false → c.payload ≡ [])
      → Exchanges
          (header_of c ++ c.payload)
          (expected_ack (header_of c))
          (send_content io fuel has_slot c)
  unfolding send_content
  send_content-Exchanges fuel false c p =
      after_clock fuel c (λ began. read_ack io fuel began (header_of c))
        (λ began v v' e.
          let (x, y) = ack-Exchanges fuel began (header_of c) v v' e in
          (x ∙ ap (λ z. sent v ++ z) (sym (p refl)), y))
  send_content-Exchanges fuel true c p =
      let ack = λ (began : ℕ). read_ack io fuel began (header_of c) in
      let back = expected_ack (header_of c) in
      after_clock fuel c (λ began. send_part io fuel began c.payload (ack began))
        (λ began. all_of c.payload back _ (
          part-Exchanges fuel began c.payload [] back (ack began)
            (ack-Exchanges fuel began (header_of c))))

  -- What a record has on the wire, if it can be made.
  abbrev pub record_of : Option ℕ → ℕ → Frames → W → Option Content
  record_of none batch_us p w = some (empty_record batch_us)
  record_of (some i) batch_us p w = wav_record (slot_at p i).frame (io.make_wav i w).0

  -- The conversion of a recording leaves the connection alone.
  abbrev pub KeepsWire : Type 0
  KeepsWire =
      (i : ℕ) (w : W)
      → (sent (io.make_wav i w).1 ≡ sent w) × (incoming (io.make_wav i w).1 ≡ incoming w)

  send_wav-IsRecord :
      (fuel : ℕ) (m : FrameMeta) (made : Option (List ℕ) × W) (w' : W)
      → send_wav io fuel m made ≡ some (true, w')
      → (c : Content) × (wav_record m made.0 ≡ some c)
        × Exchanged (header_of c ++ c.payload) (expected_ack (header_of c)) made.1 w'
  unfolding send_wav
  send_wav-IsRecord fuel m (none, w) w' e = cc
  send_wav-IsRecord fuel m (some payload, w) w' e =
      let c = slot_record m payload in
      (c, refl, send_content-Exchanges fuel true c (λ f. cc) w w' e)

  -- A record that succeeds was acknowledged: its header and its payload went out, whole and in order, and
  -- nothing else did; and all that was read from the receiver are the twelve bytes ACK3, the sequence
  -- number of this header and the CRC of its payload.
  pub send_record-IsAcknowledged :
      (fuel : ℕ) (slot : Option ℕ) (batch_us : ℕ) (p : Frames) (w w' : W)
      → KeepsWire
      → send_record io fuel slot batch_us p w ≡ some (true, w')
      → (c : Content) × (record_of slot batch_us p w ≡ some c)
        × Exchanged (header_of c ++ c.payload) (expected_ack (header_of c)) w w'
  unfolding send_record
  send_record-IsAcknowledged fuel none batch_us p w w' keeps e =
      let c = empty_record batch_us in
      (c, refl, send_content-Exchanges fuel false c (λ f. refl) w w' e)
  send_record-IsAcknowledged fuel (some i) batch_us p w w' keeps e =
      let (c, made, (s, b)) = send_wav-IsRecord fuel (slot_at p i).frame (io.make_wav i w) w' e in
      let (same, came) = keeps i w in
      (c, made, (s ∙ ap (λ x. x ++ (header_of c ++ c.payload)) same, sym came ∙ b))
