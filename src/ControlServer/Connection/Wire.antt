-- ===== src/ControlServer/Connection/Wire.antt =====
-- What a client of TCP 5003 can make firmware/src/sonar_control_server.c ask of the experiment task.
use air_born_sonar.Common.{
  ℕ, zero, suc, ◌+◌, ◌≤◌, ◌<◌, ◌≡◌, refl, sym, ap, ◌∙◌, ◌⊎◌, inl, inr, Bool, true, false, List, [],
  ◌∷◌, ◌++◌, Option, none, some, arith, length, replicate, if◌then◌else◌, length-replicate,
  Bool-cases, not, ◌==◌,
}
use mathlib.Core.List.{append_assoc, append-nil}
use air_born_sonar.ControlProtocol
use air_born_sonar.ControlProtocol.Op
use air_born_sonar.Crc32.{crc32}
use air_born_sonar.Socket.{Transferred, is_done}
use air_born_sonar.Socket.Keeping.{Keeps, transfer-Keeps, length-transfer}
use air_born_sonar.ControlServer.{Request, Response}
use air_born_sonar.ControlServer.Connection.{
  Link, Round, goes_on, breaks, stuck, rpc, rpc_wait, control_io, send_answer, header_sent,
  payload_sent, answered, timed_out, executed, payload_read, decoded, header_read, serve_round,
  after_round, serve_rounds, cleaned_up, clean_up, serve, is_refused, ending, request_of,
}

-- `asked` are the requests that the task has offered to the queue, the oldest first.
pub record Records {W : Type 0} (link : Link W) (asked : W → List Request) : Type 0 where
  pub keeps : Keeps link.socket (λ w. w) asked
  pub nonblocking : (w : W) → asked (link.nonblocking w).1 ≡ asked w
  pub answer : (w : W) → asked (link.answer w).1 ≡ asked w
  pub accept : (w : W) → asked (link.accept w).1 ≡ asked w
  pub close : (w : W) → asked (link.close w) ≡ asked w
  pub pause : (w : W) → asked (link.pause w) ≡ asked w
  pub submit : (q : Request) (w : W) → asked (link.submit q w).1 ≡ asked w ++ q ∷ []

-- A request that came from the client of session `n`.
pub record IsFromWire (n : ℕ) (q : Request) : Type 0 where
  pub opcode : (Op.get_capabilities ≤ q.opcode) × (q.opcode ≤ Op.prepare_test)
  pub session : q.session ≡ n
  pub bounded : length q.payload ≤ ControlProtocol.max_payload

-- Requests of session `n`, with tokens that grow from above `token` up to `last`.
abbrev pub AreFromWire : ℕ → ℕ → ℕ → List Request → Type 0
AreFromWire n token last [] = token ≤ last
AreFromWire n token last (q ∷ qs) =
    (token < q.token) × IsFromWire n q × AreFromWire n q.token last qs

earlier-AreFromWire :
    (n token later last : ℕ) (qs : List Request)
    → token ≤ later
    → AreFromWire n later last qs
    → AreFromWire n token last qs
earlier-AreFromWire n token later last [] l h = omega arith
earlier-AreFromWire n token later last (q ∷ qs) l h = ground arith

append-AreFromWire :
    (n token middle last : ℕ) (qs rs : List Request)
    → AreFromWire n token middle qs
    → AreFromWire n middle last rs
    → AreFromWire n token last (qs ++ rs)
append-AreFromWire n token middle last [] rs h k = earlier-AreFromWire n token middle last rs h k
append-AreFromWire n token middle last (q ∷ qs) rs (l, f, h) k =
    (l, f, append-AreFromWire n q.token middle last qs rs h k)

module _ {W : Type 0} (link : Link W) (asked : W → List Request)
    (records : Records link asked) where
  control_io-Keeps :
      (fuel : ℕ) (sending : Bool) (bytes : List ℕ) (w : W) (r : Transferred W)
      → control_io link fuel sending bytes w ≡ some r
      → asked r.world ≡ asked w
  unfolding control_io
  control_io-Keeps fuel sending bytes w r e =
      let (began, w₁) = link.socket.ticks w in
      transfer-Keeps link.socket (λ v. v) asked records.keeps fuel sending began link.limit bytes 0
        w₁ r e
      ∙ records.keeps.ticks w

  length-control_io :
      (fuel : ℕ) (sending : Bool) (bytes : List ℕ) (w : W) (r : Transferred W)
      → control_io link fuel sending bytes w ≡ some r
      → length r.bytes ≡ length bytes
  unfolding control_io
  length-control_io fuel sending bytes w r e =
      let (began, w₁) = link.socket.ticks w in
      length-transfer link.socket (λ v. v) fuel sending began link.limit bytes 0 w₁ r e

  rpc_wait-Keeps :
      (fuel : ℕ) (q : Request) (w : W) (r : Option Response) (w' : W)
      → rpc_wait link fuel q w ≡ some (r, w')
      → asked w' ≡ asked w
  unfolding rpc_wait
  rpc_wait-Keeps zero q w r w' e = cc
  rpc_wait-Keeps (suc fuel) q w r w' e =
      let (now, w₁) = link.socket.ticks w in
      let (a, w₂) = link.answer w₁ in
      ground (arith, records.keeps.ticks w, records.answer w₁, rpc_wait-Keeps fuel q w₂ r w')

  -- A remote call asks once.
  rpc-Asks :
      (fuel : ℕ) (q : Request) (w : W) (r : Option Response) (w' : W)
      → rpc link fuel q w ≡ some (r, w')
      → asked w' ≡ asked w ++ record q { submitted = (link.socket.ticks w).0 } ∷ []
  unfolding rpc
  rpc-Asks fuel q w r w' e =
      let (now, w₁) = link.socket.ticks w in
      let q' = record q { submitted = now } in
      let (queued, w₂) = link.submit q' w₁ in
      ground (arith, records.keeps.ticks w, records.submit q' w₁, rpc_wait-Keeps fuel q' w₂ r w')

  sent_payload-Keeps :
      (fuel : ℕ) (payload : List ℕ) (sent : Bool) (w w' : W) (x : Option (Transferred W))
      → control_io link fuel true payload w ≡ x
      → payload_sent link x ≡ some (sent, w')
      → asked w' ≡ asked w
  sent_payload-Keeps fuel payload sent w w' none t e = cc
  sent_payload-Keeps fuel payload sent w w' (some r) t e =
      ground (arith, control_io-Keeps fuel true payload w r)

  sent_header-Keeps :
      (fuel : ℕ) (header payload : List ℕ) (sent : Bool) (w w' : W) (x : Option (Transferred W))
      → control_io link fuel true header w ≡ x
      → header_sent link (λ v. control_io link fuel true payload v) x ≡ some (sent, w')
      → asked w' ≡ asked w
  sent_header-Keeps fuel header payload sent w w' none t e = cc
  sent_header-Keeps fuel header payload sent w w' (some r) t e = ground (
    arith,
    control_io-Keeps fuel true header w r,
    sent_payload-Keeps fuel payload sent r.world w' (control_io link fuel true payload r.world),
  )

  send_answer-Keeps :
      (fuel : ℕ) (q : ControlProtocol.Request) (words : List ℕ) (w : W) (sent : Bool) (w' : W)
      → send_answer link fuel q words w ≡ some (sent, w')
      → asked w' ≡ asked w
  unfolding send_answer
  send_answer-Keeps fuel q words w sent w' e = sent_header-Keeps fuel _ _ sent w w' _ refl e

  -- From `w` to `w'` the task has asked for the client of session `n`, with tokens up to `last`.
  abbrev Asked : ℕ → ℕ → ℕ → W → W → Type 0
  Asked n token last w w' =
      (qs : List Request) × AreFromWire n token last qs × (asked w' ≡ asked w ++ qs)

  asks_nothing :
      (n token last : ℕ) (w w' : W) → token ≤ last → asked w' ≡ asked w → Asked n token last w w'
  asks_nothing n token last w w' l e = ([], l, e ∙ sym (append-nil (asked w)))

  then_nothing :
      (n token last : ℕ) (w w' w'' : W)
      → Asked n token last w w'
      → asked w'' ≡ asked w'
      → Asked n token last w w''
  then_nothing n token last w w' w'' (qs, f, e) k = (qs, f, k ∙ e)

  then_more :
      (n token middle last : ℕ) (w w' w'' : W)
      → Asked n token middle w w'
      → Asked n middle last w' w''
      → Asked n token last w w''
  then_more n token middle last w w' w'' (qs, f, e) (rs, g, k) = (
    qs ++ rs,
    append-AreFromWire n token middle last qs rs f g,
    k ∙ ap (λ x. x ++ rs) e ∙ append_assoc (asked w) qs rs,
  )

  -- What a round has asked.
  abbrev Asks : ℕ → ℕ → W → Round W → Type 0
  Asks n token w (goes_on last t w') = Asked n token t w w'
  Asks n token w (breaks t w') = Asked n token t w w'
  Asks n token w stuck = Unit

  answered-Asks :
      (n token t : ℕ) (w : W) (q : ControlProtocol.Request) (o : Option (Bool × W))
      → ((sent : Bool) (w' : W) → o ≡ some (sent, w') → Asked n token t w w')
      → Asks n token w (answered link t q o)
  unfolding answered
  answered-Asks n token t w q none k = tt
  answered-Asks n token t w q (some (true, w')) k = k true w' refl
  answered-Asks n token t w q (some (false, w')) k = k false w' refl

  timed_out-Asks :
      (n token t : ℕ) (w : W) (o : Option (Bool × W))
      → ((sent : Bool) (w' : W) → o ≡ some (sent, w') → Asked n token t w w')
      → Asks n token w (timed_out link t o)
  unfolding timed_out
  timed_out-Asks n token t w none k = tt
  timed_out-Asks n token t w (some (sent, w')) k = k sent w' refl

  answer-Asked :
      (n token t : ℕ) (w w₁ : W) (fuel : ℕ) (q : ControlProtocol.Request) (words : List ℕ)
      → Asked n token t w w₁
      → (sent : Bool) (w' : W) → send_answer link fuel q words w₁ ≡ some (sent, w')
      → Asked n token t w w'
  answer-Asked n token t w w₁ fuel q words h sent w' e =
      then_nothing n token t w w₁ w' h (send_answer-Keeps fuel q words w₁ sent w' e)

  executed-Asks :
      (n token t fuel : ℕ) (w : W) (q : ControlProtocol.Request) (o : Option (Option Response × W))
      → ((r : Option Response) (w' : W) → o ≡ some (r, w') → Asked n token t w w')
      → Asks n token w (executed link fuel t q o)
  unfolding executed
  executed-Asks n token t fuel w q none k = tt
  executed-Asks n token t fuel w q (some (none, w')) k =
      timed_out-Asks n token t w _ (answer-Asked n token t w w' fuel q _ (k none w' refl))
  executed-Asks n token t fuel w q (some (some r, w')) k =
      answered-Asks n token t w q _
        (answer-Asked n token t w w' fuel q r.words (k (some r) w' refl))

  decode-Bounded :
      (h : List ℕ) (q : ControlProtocol.Request)
      → ControlProtocol.decode h ≡ some q
      → q.bytes ≤ ControlProtocol.max_payload
  unfolding ControlProtocol.decode
  decode-Bounded h q e = ground arith

  -- The request that the client made is asked.
  rpc-Asked :
      (n token fuel : ℕ) (w w₁ : W) (q : ControlProtocol.Request) (payload : List ℕ)
      → (Op.get_capabilities ≤ q.opcode) × (q.opcode ≤ Op.prepare_test)
      → length payload ≤ ControlProtocol.max_payload
      → asked w₁ ≡ asked w
      → (r : Option Response) (w' : W)
      → rpc link fuel (request_of n (token + 1) q payload) w₁ ≡ some (r, w')
      → Asked n token (token + 1) w w'
  rpc-Asked n token fuel w w₁ q payload f l k r w' e =
      let a = rpc-Asks fuel (request_of n (token + 1) q payload) w₁ r w' e in
      let q' = record (request_of n (token + 1) q payload) {
        submitted = (link.socket.ticks w₁).0;
      } in
      let wire : IsFromWire n q' = record { opcode = f; session = refl; bounded = l } in
      let made : AreFromWire n token (token + 1) (q' ∷ []) = (omega arith, wire, omega arith) in
      (q' ∷ [], made, a ∙ ap (λ x. x ++ q' ∷ []) k)

  either-Asks :
      (n token : ℕ) (w : W) (b : Bool) (x y : Round W)
      → Asks n token w x
      → Asks n token w y
      → Asks n token w (if b then x else y)
  either-Asks n token w true x y h k = h
  either-Asks n token w false x y h k = k

  payload_read-Asks :
      (n token fuel : ℕ) (w w₁ : W) (q : ControlProtocol.Request) (x : Option (Transferred W))
      → (Op.get_capabilities ≤ q.opcode) × (q.opcode ≤ Op.prepare_test)
      → q.bytes ≤ ControlProtocol.max_payload
      → asked w₁ ≡ asked w
      → control_io link fuel false (replicate q.bytes 0) w₁ ≡ x
      → Asks n token w (payload_read link fuel n (token + 1) q x)
  unfolding payload_read
  payload_read-Asks n token fuel w w₁ q none f l k e = tt
  payload_read-Asks n token fuel w w₁ q (some r) f l k e =
      let same = control_io-Keeps fuel false (replicate q.bytes 0) w₁ r e ∙ k in
      let here = asks_nothing n token (token + 1) w r.world (omega arith) same in
      let filled : length r.bytes ≡ q.bytes =
        length-control_io fuel false (replicate q.bytes 0) w₁ r e ∙ length-replicate q.bytes 0 in
      let asks = rpc-Asked n token fuel w r.world q r.bytes f (omega (arith, filled, l)) same in
      either-Asks n token w (not (is_done r.status)) _ _ here (
        either-Asks n token w (not (crc32 r.bytes q.bytes == q.crc)) _ _
          (answered-Asks n token (token + 1) w q _
            (answer-Asked n token (token + 1) w r.world fuel q _ here))
          (executed-Asks n token (token + 1) fuel w q _ asks))

  decoded-Asks :
      (n last token fuel : ℕ) (w w₁ : W) (o : Option ControlProtocol.Request)
      → ((q : ControlProtocol.Request) → o ≡ some q → q.bytes ≤ ControlProtocol.max_payload)
      → asked w₁ ≡ asked w
      → Asks n token w (decoded link fuel n last token o w₁)
  unfolding decoded
  decoded-Asks n last token fuel w w₁ none l k = asks_nothing n token token w w₁ (omega arith) k
  decoded-Asks n last token fuel w w₁ (some q) l k = elim (Bool-cases (is_refused last token q)) [
    | inl f ↦ rw f (asks_nothing n token token w w₁ (omega arith) k)
    | inr f ↦ rw f (payload_read-Asks n token fuel w w₁ q _ (ground arith) (l q refl) k refl)
  ]

  header_read-Asks :
      (n last token fuel : ℕ) (w : W) (x : Option (Transferred W))
      → control_io link fuel false (replicate ControlProtocol.header_bytes 0) w ≡ x
      → Asks n token w (header_read link fuel n last token x)
  unfolding header_read
  header_read-Asks n last token fuel w none e = tt
  header_read-Asks n last token fuel w (some r) e =
      let same = control_io-Keeps fuel false (replicate ControlProtocol.header_bytes 0) w r e in
      either-Asks n token w (is_done r.status) _ _
        (decoded-Asks n last token fuel w r.world _ (decode-Bounded r.bytes) same)
        (asks_nothing n token token w r.world (omega arith) same)

  -- What the loop has asked.
  abbrev EndsAsked : ℕ → ℕ → W → Option (ℕ × W) → Type 0
  EndsAsked n token w none = Unit
  EndsAsked n token w (some (t, w')) = Asked n token t w w'

  more-EndsAsked :
      (n token t : ℕ) (w w' : W) (o : Option (ℕ × W))
      → Asked n token t w w'
      → EndsAsked n t w' o
      → EndsAsked n token w o
  more-EndsAsked n token t w w' none h k = tt
  more-EndsAsked n token t w w' (some (t', w'')) h k = then_more n token t t' w w' w'' h k

  after_round-EndsAsked :
      (n token : ℕ) (w : W) (next : ℕ → ℕ → W → Option (ℕ × W)) (r : Round W)
      → ((last t : ℕ) (v : W) → EndsAsked n t v (next last t v))
      → Asks n token w r
      → EndsAsked n token w (after_round link next r)
  unfolding after_round
  after_round-EndsAsked n token w next (goes_on last t w') k h =
      more-EndsAsked n token t w w' _ h (k last t w')
  after_round-EndsAsked n token w next (breaks t w') k h = h
  after_round-EndsAsked n token w next stuck k h = tt

  serve_rounds-EndsAsked :
      (rounds fuel n last token : ℕ) (w : W)
      → EndsAsked n token w (serve_rounds link rounds fuel n last token w)
  unfolding serve_rounds serve_round
  serve_rounds-EndsAsked zero fuel n last token w = tt
  serve_rounds-EndsAsked (suc rounds) fuel n last token w =
      after_round-EndsAsked n token w _ _
        (λ last' t v. serve_rounds-EndsAsked rounds fuel n last' t v)
        (header_read-Asks n last token fuel w _ refl)

  -- What a connection has asked, with its end.
  abbrev pub Served : ℕ → W → W → Type 0
  Served n w w' =
      (qs : List Request) × (last : ℕ) × (now : ℕ) × AreFromWire n 0 last qs
      × (asked w' ≡ asked w ++ (qs ++ record (ending n last) { submitted = now } ∷ []))

  cleaned_up-eq :
      (o : Option (Option Response × W)) (w' : W)
      → cleaned_up link o ≡ some w'
      → (r : Option Response) × (o ≡ some (r, w'))
  unfolding cleaned_up
  cleaned_up-eq none w' e = cc
  cleaned_up-eq (some (r, v)) w' e = (r, ground arith)

  clean_up-Served :
      (fuel n : ℕ) (w w₁ w' : W) (o : Option (ℕ × W))
      → asked w₁ ≡ asked w
      → EndsAsked n 0 w₁ o
      → clean_up link fuel n o ≡ some w'
      → Served n w w'
  unfolding clean_up
  clean_up-Served fuel n w w₁ w' none k h e = cc
  clean_up-Served fuel n w w₁ w' (some (t, v)) k (qs, f, a) e =
      let (r, c) = cleaned_up-eq (rpc link fuel (ending n t) v) w' e in
      let now = (link.socket.ticks v).0 in
      let last = record (ending n t) { submitted = now } ∷ [] in
      (
        qs,
        t,
        now,
        f,
        rpc-Asks fuel (ending n t) v r w' c
            ∙ ap (λ x. x ++ last) (a ∙ ap (λ x. x ++ qs) k)
            ∙ append_assoc (asked w) qs last,
      )

  -- What a connection of session `n` asks of the experiment task: requests of the session with an opcode
  -- of the protocol, at most 1,024 bytes and tokens that grow, whatever comes in; then the internal opcode
  -- that ends the session, once, as the last, however the connection ends. A socket that cannot be set up
  -- asks nothing.
  pub serve-Served :
      (rounds fuel n : ℕ) (w w' : W)
      → serve link rounds fuel n w ≡ some w'
      → ((link.nonblocking w).0 ≡ false) × (asked w' ≡ asked w) ⊎ Served n w w'
  unfolding serve
  serve-Served rounds fuel n w w' e =
      let (set, w₁) = link.nonblocking w in
      let h =
        clean_up-Served fuel n w w₁ w' (serve_rounds link rounds fuel n 0 0 w₁)
          (records.nonblocking w) (serve_rounds-EndsAsked rounds fuel n 0 0 w₁) in
      elim (Bool-cases set) [
        | inl s ↦ inr (h (ground arith))
        | inr s ↦ inl (s, ground (arith, records.nonblocking w))
      ]
