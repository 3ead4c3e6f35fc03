-- ===== src/Lib.antt =====
-- flip-link links a host to a Flipper Zero over USB. A frame format with a checksum (flip-proto)
-- carries CBOR control messages and raw samples. On the device an application (firmware) handles
-- requests by its instruments: infrared and Sub-GHz, each with a transmission that a hardware
-- callback feeds and a capture that an interrupt fills. On the host a daemon (flip-daemon) owns the
-- serial port and routes the device's frames to its clients by their numbers; a client library
-- (flip-client) builds the requests and reads the answers, and flip-core has the frame reader that
-- all of them share.
--
-- The modules, and the code that they are about:
--   Base            shared names, lists and bits over the native numbers, text, results
--   Proto.Bytes     little-endian words and slices, as Rust's standard library has them
--   Proto.Crc       crates/flip-proto/src/crc16.rs: crc16_ccitt_false
--   Proto.Frame     crates/flip-proto/src/frame.rs: encode, decode
--   Proto.Value     crates/flip-proto/src/value.rs: Value, its Encode and Decode
--   Proto.Messages  crates/flip-proto/src/messages.rs: bodies, error codes
--   Core.Reader     crates/flip-core/src/transport.rs: FrameReader, with a reading loop
--   Core.Device     crates/flip-core/src/device.rs: DeviceLink
--   Core.Loopback   crates/flip-core/src/mock.rs: PongLoopback, ControlLoopback
--   Core.Serial     crates/flip-core/src/serial.rs: list_flipper_ports, pick_agent_port
--   Daemon.Device   crates/flip-daemon/src/device_conn.rs: write_outbound_frame, cache_caps and
--                   the attempts to connect
--   Daemon.Pump     crates/flip-daemon/src/device_conn.rs: pump
--   Daemon.Owner    crates/flip-daemon/src/device_conn.rs: run
--   Daemon.Router   crates/flip-daemon/src/router.rs: Router
--   Firmware.Registry          firmware/src/registry.rs, sys_instrument.rs
--   Firmware.Loop              firmware/src/main.rs: handle_frame and the loop of main
--   Firmware.Usb               firmware/src/main.rs: rx_callback, tx_callback, input_callback,
--                              cdc_send_all, send_msg, and the loop's accesses to the shared buffer
--   Firmware.Main              firmware/src/main.rs: main, usb_teardown, tx_teardown, gui_teardown
--   Firmware.Ir.Transmit       firmware/src/ir_instrument.rs: transmit, tx_get_data
--   Firmware.Ir.Capture        firmware/src/ir_instrument.rs: the capture and its interrupt
--   Firmware.SubGhz            firmware/src/subghz_instrument.rs: the checks of the parameters
--   Firmware.SubGhz.Transmit   firmware/src/subghz_instrument.rs: transmit, tx_yield
--   Firmware.SubGhz.Capture    firmware/src/subghz_instrument.rs: the capture and its interrupt
--   Firmware.SubGhz.LinkProbe  firmware/src/subghz_instrument.rs: link_probe
--   Str             the methods of Rust's str that the text formats use
--   Client.Signal   crates/flip-client/src/signal.rs: parameters and samples; Client.Signal.File:
--                   to_file_string, parse
--   Client.SubGhz   crates/flip-client/src/subghz.rs: presets, parameters, answers, records;
--                   Client.SubGhz.File: the text format; Client.SubGhz.Hex: parse_probe_hex
--   Client.Capture  crates/flip-client/src/lib.rs: the transmissions and the capture loops
--   Client.Daemon   crates/flip-client/src/daemon.rs: invoke, open_stream, StreamConn
--                   Client.Daemon.Connect: connect, spawn_daemon, socket_path, log_path
--   Client.LinkProbe  crates/flip-client/src/lib.rs: subghz_link_probe
--   Cli.Kv          crates/flip-cli/src/kv.rs: parse_params, parse_value
--   Cli.Render      crates/flip-cli/src/main.rs: render_value, hex_preview
--   Cli.Shown       crates/flip-cli/src/main.rs: what `caps` and `daemon status` print
--   Cli.Run         crates/flip-cli/src/main.rs: the commands, over a store of files
--   Daemon.Session  crates/flip-daemon/src/server.rs: serve_client, forward, the relay
--
-- A theorem about several parts stands with the part that starts the exchange: Firmware.Usb.Served
-- goes from a host's frames through the interrupts and the loop to the frames that the host reads,
-- Client.Capture.EndToEnd and Client.Capture.SubGhzEndToEnd from the device's interrupt to the
-- client's signal, Client.Daemon.Invoked from the client's request through the daemon's session and
-- back, Client.SubGhz.Sent from the client's parameters to what the device sends, and
-- Client.LinkProbe.Answered from the client's call to the device's worker and back.
--
-- State. A `&mut self` method takes the record before the call and returns it after; the device's
-- statics are records (Tx, IrTx, Capture, State), and a null pointer is `none`. Frames sent and calls
-- of the radio are returned as lists, in order, with what the radio's callback gives between them.
-- Interrupts and rounds of the main loop are events of a list, so that a theorem over all lists holds
-- for every interleaving of them.
--
-- Numbers are natural numbers with the wrap-around of their width written out; a text is the list of
-- its code points.
--
-- Parameters. The crate minicbor (Proto.Value.Cbor), the SDK's stream buffers (Firmware.Stream),
-- its radio (Firmware.SubGhz.Transmit.Radio), and the instruments as the main loop sees them
-- (Firmware.Loop.Instruments) are arguments of the definitions that use them, and so are the SDK's
-- Sub-GHz worker with its state (Firmware.SubGhz.LinkProbe.Worker), the socket of a client
-- (Client.Daemon) and the library as the command line sees it (Cli.Run.Library). What the device, a
-- socket and the clock give to a loop is a list, with one entry for each round of the loop (Turn,
-- Exchange, Poll, Wait, Round, Cycle, Attempt), and a theorem holds for every list; so are the
-- interrupts between the accesses of the firmware's loop (Event). Where a theorem relies on what
-- their documentation says, that is a hypothesis, and a concrete function meets it in the tests
-- beside.
--
-- Fuel. The reading loops and the device's inner loop drop a byte at least in each round, so one more
-- than the buffered bytes is enough, and the loops that empty a stream buffer likewise. `decode` of a
-- value takes a byte for each item, so one more than the bytes ahead is enough; it returns `stuck`
-- when the fuel ends. The wait of a transmission has its timeout. The digits of a number take the
-- number as fuel, since each round divides by ten.
--
-- Not modelled: the sockets, the open serial port, threads and clocks themselves; what the firmware
-- draws on its screen; the listener of the daemon and its threads; the arguments of the command
-- line, which clap's macros parse, and its command `status`, which shows an error's text. The CBOR
-- codec of the message bodies is derived by minicbor's macros, and the bodies are encoded and decoded
-- by functions that are parameters.
pub mod Base
pub mod Str
pub mod Proto
pub mod Core
pub mod Daemon
pub mod Client
pub mod Cli
pub mod Firmware
