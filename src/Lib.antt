-- ===== src/Lib.antt =====
-- Verification library of the air-borne sonar firmware (firmware/src).
--
-- The firmware runs an experiment: a cycle of acoustic transmission, 16-channel recording, motor move
-- and settling. The parts that keep its state are plain C objects with callbacks to the hardware, and
-- each is a module here:
--
-- * Scan360 (firmware/src/sonar_scan360.c) splits one revolution into relative moves: `configure`,
--   `begin`, `next_delta`, `mark_move_started`, `complete` are sonar_scan360_configure and so on.
-- * MeasurementCycle (firmware/src/sonar_measurement_cycle.c) orders capture, move and settling.
--   `halt` is sonar_cycle_stop; the cases of sonar_cycle_poll are `poll_acquire` and its likes.
-- * Mic (firmware/src/sonar_mic.c) owns the buffer of a recording; `handle` is sonar_mic_event.
-- * Frames (firmware/src/sonar_frames.c) is the pool of recordings between the capture and the
--   sender, and the header that is sent; `discard` is the write of sonar_experiment_coordinator.c
--   that gives a slot up.
-- * Stepper (firmware/src/sonar_stepper.c) drives the motor controller; `fail` is its `fault`.
-- * ControlProtocol (firmware/src/sonar_control_protocol.c) is the request header of the control
--   connection, and ControlService (firmware/src/sonar_control_service.c) what the requests do. It
--   calls ExperimentConfig (firmware/src/sonar_experiment_config.c), which computes the hardware
--   values of a chirp, Identity (firmware/src/sonar_identity.c), and WaveformUpload.
-- * WaveformUpload and WavParser (firmware/src/sonar_waveform_upload.c) take a WAVE file in pieces
--   and write it to the playback memory.
-- * ControlServer (firmware/src/sonar_control_server.c) carries out the requests that wait in a queue:
--   `control_poll` is sonar_control_poll; the queues and the tick counter are the record `Queues`.
--   ControlServer.Connection is the task that reads the requests of a client: `serve` is `serve`, `rpc` is
--   `rpc`, `serve_round` one round of its loop, and `server_round` one of the loop of `server`, over the
--   record `Link`.
-- * Socket (firmware/src/sonar_socket.c) has the transfers of all connections: `transfer` is
--   sonar_socket_transfer, over the record `SocketIo`.
-- * Network (firmware/src/sonar_ethernet.c) sends the recordings of the pool: `send_record` is a record
--   with its acknowledgement, and `serve_batch` a batch. The other tasks may do to the pool what `others`
--   of the record `NetIo` does.
-- * WavWriter (firmware/src/sonar_wav_writer.c and firmware/src/sonar_rx_processing.c) makes the file of a
--   recording: `processing_make_wav` is sonar_processing_make_wav.
-- * Coordinator (firmware/src/sonar_experiment_coordinator.c) is the task that composes these parts.
--   `capture`, `move_motor` and `stop_outputs` are the callbacks of the cycle on the objects that they
--   share, the record `Lab`; `round` of Coordinator.Round is one round of the loop of
--   experiment_task, step by step. The board is the record `Board`, and the flags, keys and events of
--   the other tasks come from the record `Panel`. What the network task does with the pool, a take or
--   a finish, may stand between any two rounds (`Act` of Coordinator.Quiet).
-- * Transmitter (firmware/src/sonar_tx_control.c) prepares, watches and aborts a transmission:
--   `prepare` is sonar_chirp_prepare and so on. It selects the source by Playback
--   (firmware/src/sonar_pcm_playback_control.c) and holds the trigger low by PlGpio
--   (firmware/src/sonar_pl_gpio.c, and sonar_gpio_merge of sonar_codec_bus.c). TxMemory
--   (firmware/src/sonar_tx_bram.c) is the memory that is played, with its gain.
-- * Speaker (firmware/src/sonar_codec_service.c) configures the codec write by write, and CodecBus
--   (firmware/src/sonar_codec_bus.c) carries one write over the bus. CodecBoard
--   (firmware/src/sonar_codec_board.c) fills the interface of the one with the other and with the
--   output bit of PlGpio.
-- * I2c (firmware/src/sonar_ps_i2c.c) is the bus of the motor controller: `init` is sonar_ps_i2c_init,
--   and `transfer` what sonar_ps_i2c_write and sonar_ps_i2c_read call.
-- * ConsoleBuffer (firmware/src/sonar_console_buffer.c) is the ring of console text.
-- * Crc32 is the checksum of sonar_frames.c and of the upload.
-- * IntegerParser (firmware/src/sonar_integer_parser.c) reads a number key by key.
-- * Health (firmware/src/sonar_health.c) checks heartbeats, and Config (firmware/src/sonar_config.c)
--   its periods. Supervisor (firmware/src/sonar_supervisor.c) is the task around it: `heartbeat` is
--   sonar_rtos_heartbeat in the experiment task, and `supervise` a round of the watching task; `run` of
--   Supervisor.Order takes any interleaving of the two.
--
-- Common holds the helpers: Boolean tests, lists as C arrays, machine words and signed integers.
--
-- How the C is read. A struct or the static variables of a file are a record, and an operation takes
-- the record and returns the new one. Callbacks and calls of other files are functions on a world `W`
-- that each call passes on, so that the order of the calls is kept; they are parameters, in a record
-- such as `MicIo`, `TicIo`, `TxBram` or `Chirp`, and may answer anything. Unsigned words are native
-- numbers, with the wrap-around written out (`u32`, `sub32`); an array is a list, and a write outside
-- it changes nothing. `none` stands for a refusal that leaves the output alone, or for -1. A reason is
-- a string or `none` for NULL. An enum holds its named values only. Where C evaluates a call only if
-- the tests before it pass, the model computes it beforehand and uses its world only then.
-- Loops are recursion on the list or the number of rounds. The loops that wait, in sonar_chirp_abort,
-- abort_bus and transfer, are `drain` of Transmitter and `await_idle` and `exchange` of I2c on fuel: a
-- round takes a tick at least, so one round more than the ticks of the deadline is enough. `transfer` of
-- Socket takes a round for each byte and each tick of the deadline, and two more, at most. The loops of
-- connections, which go on as long as the peer does, are on fuel without a bound: `none` is a run that has
-- not ended, as are `rpc_wait`, `wait_batch` and `send_slots`, whose rounds the other tasks decide.
--
-- Not modelled: null pointers, which the operations refuse, but for the null heartbeat of Health;
-- the tasks and critical sections of FreeRTOS, so that an operation is one step; the sockets of
-- lwIP, the opening of sockets, the loops that accept connections but for the one of the control
-- server, the start-up and the messages of the coordinator and the network, the signal processing
-- of the receiver, the console, the host programs and the FPGA design. The control service and the
-- upload call the transmitter and its memory by the interfaces `Chirp` and `TxBram`.
pub mod CodecBoard
pub mod CodecBus
pub mod Common
pub mod Config
pub mod ConsoleBuffer
pub mod ControlProtocol
pub mod ControlServer
pub mod ControlService
pub mod Coordinator
pub mod Crc32
pub mod ExperimentConfig
pub mod Frames
pub mod Health
pub mod I2c
pub mod Identity
pub mod IntegerParser
pub mod MeasurementCycle
pub mod Mic
pub mod Network
pub mod PlGpio
pub mod Playback
pub mod Scan360
pub mod Socket
pub mod Speaker
pub mod Stepper
pub mod Supervisor
pub mod Transmitter
pub mod TxMemory
pub mod WavParser
pub mod WavWriter
pub mod WaveformUpload
