-- ===== src/ControlServer/Connection/Tests.antt =====
-- A connection that asks for the capabilities, then for the internal opcode.
use air_born_sonar.Common.{
  ◌≡◌, ◌⊎◌, refl, Bool, true, false, List, [], ◌∷◌, ◌++◌, Option, none, some, length,
}
use air_born_sonar.Crc32.{crc32, crc_bytes, crc_byte}
use air_born_sonar.ControlProtocol
use air_born_sonar.ControlProtocol.Op
use air_born_sonar.Socket.{SocketIo, transfer, attempt, would_block}
use air_born_sonar.Socket.Example.{Wire, wire_io}
use air_born_sonar.ControlServer.{Request, Response}
use air_born_sonar.ControlServer.Connection.{
  Link, rpc, rpc_wait, control_io, send_answer, answered, executed, payload_read, decoded,
  header_read, serve_round, after_round, serve_rounds, cleaned_up, clean_up, serve, put_words,
}
use air_born_sonar.ControlServer.Connection.Wire.{Records, Served, serve-Served}

-- The experiment task answers the newest request at once.
record Desk : Type 0 where
  wire : Wire
  asked : List Request
  answers : List Response

abbrev on_wire : {A : Type 0} → Desk → A × Wire → A × Desk
on_wire d (a, w) = (a, record d { wire = w })

abbrev received : Desk → List Response → Option Response × Desk
received d [] = (none, d)
received d (r ∷ rs) = (some r, record d { answers = rs })

abbrev socket : SocketIo Desk
socket = record {
  send = λ bs d. on_wire d (wire_io.send bs d.wire);
  recv = λ n d. let (a, bytes, w) = wire_io.recv n d.wire in (a, bytes, record d { wire = w });
  ticks = λ d. on_wire d (wire_io.ticks d.wire);
  delay = λ d. record d { wire = wire_io.delay d.wire };
  eagain = wire_io.eagain;
  ewouldblock = wire_io.ewouldblock;
  eintr = wire_io.eintr;
}

abbrev link : Link Desk
link = record {
  socket = socket;
  nonblocking = λ d. (true, d);
  submit = λ q d. (
    true,
    record d {
      asked = d.asked ++ q ∷ [];
      answers = record { token = q.token; session = q.session; words = 0 ∷ [] } ∷ [];
    },
  );
  answer = λ d. received d d.answers;
  accept = λ d. (true, d);
  close = λ d. d;
  pause = λ d. d;
  rpc_ticks = 20;
  limit = 50;
}

received-asked : (d : Desk) (rs : List Response) → (received d rs).1.asked ≡ d.asked
received-asked d [] = refl
received-asked d (r ∷ rs) = refl

recorded : Records link (λ d. d.asked)
recorded = record {
  keeps = record {
    send = λ bs d. refl;
    recv = λ n d. refl;
    ticks = λ d. refl;
    delay = λ d. refl;
    other = λ d. refl;
  };
  nonblocking = λ d. refl;
  answer = λ d. received-asked d d.answers;
  accept = λ d. refl;
  close = λ d. refl;
  pause = λ d. refl;
  submit = λ q d. refl;
}

abbrev start : Desk
start = record {
  wire = record {
    out = [];
    coming =
        ControlProtocol.header Op.get_capabilities 1 [] 0
        ++ ControlProtocol.header Op.end_session 2 [] 0;
    ready = true;
    time = 0;
  };
  asked = [];
  answers = [];
}

abbrev after : Option Desk → Desk
after none = start
after (some d) = d

abbrev is_there : Option Desk → Bool
is_there none = false
is_there (some d) = true

after_lem : (o : Option Desk) → is_there o ≡ true → o ≡ some (after o)
after_lem none e = cc
after_lem (some d) e = refl

abbrev finished : Desk
finished = after (serve link 5 199 7 start)

returns : is_there (serve link 5 199 7 start) ≡ true
unfolding serve serve_rounds serve_round clean_up after_round header_read control_io transfer
    attempt ControlProtocol.header would_block decoded ControlProtocol.decode crc32 payload_read
    executed rpc rpc_wait answered send_answer put_words ControlProtocol.get_u32
    ControlProtocol.put_u32 cleaned_up crc_byte crc_bytes
returns = refl

asks_once : length finished.asked ≡ 2
unfolding serve serve_rounds serve_round clean_up after_round header_read control_io transfer
    attempt ControlProtocol.header would_block decoded ControlProtocol.decode crc32 payload_read
    executed rpc rpc_wait answered send_answer put_words ControlProtocol.get_u32
    ControlProtocol.put_u32 cleaned_up crc_byte crc_bytes
asks_once = refl

serve-Served_example :
    ((link.nonblocking start).0 ≡ false) × (finished.asked ≡ [])
    ⊎ Served link (λ d. d.asked) recorded 7 start finished
serve-Served_example =
    serve-Served link (λ d. d.asked) recorded 5 199 7 start finished (after_lem _ returns)
